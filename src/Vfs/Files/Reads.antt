-- ===== src/Vfs/Files/Reads.antt =====
-- What a read leaves in the buffer, and reads after writes (kernel/src/vfs/ramfs.rs).
use nyaux_kc.Base.{
  ge→ltb, ℕ, ◌+◌, ◌-◌, ◌^◌, ◌≤◌, ◌<◌, ◌≡◌, refl, false, some, List, [], ◌∷◌, ◌++◌, arith, length,
  ltb, leb, min, if◌then◌else◌, length-append, Bool-cases, inl, inr, ◌∙◌, ap, lt→ltb, lt→leb,
  dec_lt, subst, leb→le, le→leb,
}
use mathlib.Core.List.{append-nil}
use nyaux_kc.Vfs.{ramfsfile}
use nyaux_kc.Vfs.Bytes.{
  take, drop, byte, length-take, length-drop, byte-take, byte-drop, byte-append-left,
  byte-append-right, take-append, drop-append, drop_all,
}
use nyaux_kc.Vfs.Files.{pos, vops_read, vops_write, spliced, grown}
use nyaux_kc.Vfs.Files.Writes.{length-grown}

-- The first `n` bytes of a buffer are replaced by those of `xs`.
copied_byte :
    (n : ℕ) (xs buf : List ℕ) (i : ℕ)
    → n ≤ length xs
    → byte (take n xs ++ drop n buf) i ≡ (if ltb i n then byte xs i else byte buf i)
copied_byte n xs buf i h =
    let front : length (take n xs) ≡ n = omega (arith, length-take n xs) in
    elim (dec_lt i n) [
      | yes b ↦
          rw (lt→ltb i n b)
            (byte-append-left (take n xs) (drop n buf) i (omega arith) ∙ byte-take n xs i b)
      | no nb ↦ rw (ge→ltb i n (omega arith)) (
          byte-append-right (take n xs) (drop n buf) i (i - n) (omega arith)
          ∙ byte-drop n buf (i - n) i (omega arith))
    ]

copied_length :
    (n : ℕ) (xs buf : List ℕ)
    → n ≤ length xs
    → n ≤ length buf
    → length (take n xs ++ drop n buf) ≡ length buf
copied_length n xs buf h k =
    omega (arith, length-append (take n xs) (drop n buf), length-take n xs, length-drop n buf)

-- What a read of `n` bytes leaves in the buffer.
pub record IsRead (buf : List ℕ) (offset : ℕ) (file : List ℕ) (n : ℕ) (out : List ℕ) : Type 0 where
  pub amount : n ≡ min (length buf) (length file - offset)
  pub size : length out ≡ length buf
  pub bytes : (i : ℕ) → byte out i ≡ (if ltb i n then byte file (offset + i) else byte buf i)

-- A read yields as many bytes as the file has from the offset on and the buffer has room for: they
-- are put at the front of the buffer, and the rest of the buffer stays.
pub vops_read-IsRead :
    (buf : List ℕ) (offset : ℕ) (file : List ℕ)
    → (n : ℕ) × (out : List ℕ) × (vops_read buf offset (ramfsfile file) ≡ some (pos n, out))
      × IsRead buf offset file n out
unfolding vops_read
vops_read-IsRead buf offset file = elim (Bool-cases (leb (length file) offset)) [
  | inl past ↦ (
    0,
    buf,
    rw past,
    record {
      amount = omega (arith, leb→le (length file) offset past);
      size = refl;
      bytes = λ i. rw (ge→ltb i 0 (omega arith));
    },
  )
  | inr real ↦
      let n = min (length buf) (length file - offset) in
      let room : n ≤ length (drop offset file) = omega (arith, length-drop offset file) in
      (
        n,
        take n (drop offset file) ++ drop n buf,
        rw real,
        record {
          amount = refl;
          size = copied_length n (drop offset file) buf room (omega arith);
          bytes = λ i.
              copied_byte n (drop offset file) buf i room
              ∙ ap (λ b. if ltb i n then b else byte buf i)
                  (byte-drop offset file i (offset + i) refl);
        },
      )
]

-- Bytes that stand behind `front` are read at its length.
module _ (front buf back dst : List ℕ) (same : length dst ≡ length buf) where
  read_behind_some :
      0 < length buf
      → vops_read dst (length front) (ramfsfile (front ++ (buf ++ back)))
        ≡ some (pos (length buf), buf)
  unfolding vops_read
  read_behind_some nonempty =
      let whole = length-append front (buf ++ back) in
      let tail = length-append buf back in
      let real : leb (length (front ++ (buf ++ back))) (length front) ≡ false =
        lt→leb _ _ (omega (arith, whole, tail)) in
      let amount : min (length dst) (length (front ++ (buf ++ back)) - length front) ≡ length buf =
        omega (arith, whole, tail) in
      let gone : drop (length buf) dst ≡ [] = rw (← same) (drop_all dst) in
      rw (real, amount, drop-append front (buf ++ back), take-append buf back, gone)
        (ap (λ l. some (pos (length buf), l)) (append-nil buf))

read_behind :
    (front buf back dst : List ℕ)
    → length dst ≡ length buf
    → vops_read dst (length front) (ramfsfile (front ++ (buf ++ back)))
      ≡ some (pos (length buf), buf)
unfolding vops_read
read_behind front [] back [] same =
    elim (Bool-cases (leb (length (front ++ back)) (length front))) [
      | inl past ↦ rw past
      | inr real ↦
          let none_left : min 0 (length (front ++ back) - length front) ≡ 0 = omega arith in
          rw (real, none_left)
    ]
read_behind front [] back (d ∷ ds) same = absurd (omega arith)
read_behind front (b ∷ bs) back dst same =
    read_behind_some front (b ∷ bs) back dst same (omega arith)

-- What was written is read back at the same offset, whatever the file and the buffer held before.
pub write-read :
    (buf dst : List ℕ) (offset : ℕ) (file : List ℕ)
    → offset + length buf < 2 ^ 63
    → length dst ≡ length buf
    → (new : List ℕ) × (vops_write buf offset (ramfsfile file)
        ≡ some (pos (length buf), ramfsfile new))
      × (vops_read dst offset (ramfsfile new) ≡ some (pos (length buf), buf))
unfolding vops_write
write-read buf dst offset file fits same =
    let n = offset + length buf in
    let front = take offset (grown n file) in
    let room : n ≤ length (grown n file) = omega (arith, length-grown n file) in
    let at : length front ≡ offset =
      omega (arith, length-take offset (grown n file), length-grown n file) in
    (
      spliced buf offset (grown n file),
      rw (lt→ltb n (2 ^ 63) fits, le→leb n (length (grown n file)) room),
      subst
          (λ o.
            vops_read dst o (ramfsfile (front ++ (buf ++ drop n (grown n file))))
            ≡ some (pos (length buf), buf))
          at (read_behind front buf (drop n (grown n file)) dst same),
    )
