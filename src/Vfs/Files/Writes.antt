-- ===== src/Vfs/Files/Writes.antt =====
-- What a write does to the bytes of a file (kernel/src/vfs/ramfs.rs).
use nyaux_kc.Base.{
  le→leb, ge→ltb, ℕ, ◌+◌, ◌-◌, ◌^◌, ◌≤◌, ◌<◌, ◌≡◌, refl, true, false, ◌&&◌, some, List, ◌++◌, arith,
  length, ltb, leb, max, if◌then◌else◌, length-append, ◌∙◌, ap, lt→ltb, lt→leb, ltb→lt, dec_lt,
  guarded,
}
use nyaux_kc.Vfs.{ramfsdir, Dentry, ramfsfile}
use nyaux_kc.Vfs.Bytes.{
  take, drop, resize, byte, length-take, length-drop, length-resize, byte-take, byte-drop,
  byte-resize, byte-append-left, byte-append-right,
}
use nyaux_kc.Vfs.Files.{pos, negsuc, vops_write, spliced, grown}

longer : (n m : ℕ) → ltb m n ≡ true → n ≡ max m n
longer n m h = omega (arith, ltb→lt m n h)

shorter : (n m : ℕ) → ltb m n ≡ false → m ≡ max m n
shorter n m h = ground arith

pub length-grown : (n : ℕ) (file : List ℕ) → length (grown n file) ≡ max (length file) n
length-grown n file =
    guarded (λ f. length f ≡ max (length file) n) (ltb (length file) n) (resize n file) file
      (λ short. length-resize n file ∙ longer n (length file) short)
      (λ long. shorter n (length file) long)

byte-grown : (n : ℕ) (file : List ℕ) (i : ℕ) → byte (grown n file) i ≡ byte file i
byte-grown n file i =
    guarded (λ f. byte f i ≡ byte file i) (ltb (length file) n) (resize n file) file
      (λ short. byte-resize n file i (omega (arith, ltb→lt _ n short))) (λ long. refl)

-- A byte lies before a written range, in it, or behind it.
data Place (offset n i : ℕ) : Type 0 where
  before : i < offset → Place offset n i
  inside : (j : ℕ) → i ≡ offset + j → j < n → Place offset n i
  behind : (j : ℕ) → i ≡ offset + n + j → Place offset n i

place_of : (offset n i : ℕ) → Place offset n i
place_of offset n i = elim (dec_lt i offset) [
  | yes b ↦ before b
  | no nb ↦ elim (dec_lt i (offset + n)) [
    | yes b ↦ inside (i - offset) (omega arith) (omega arith)
    | no na ↦ behind (i - (offset + n)) (omega arith)
  ]
]

-- The byte at `i` after `buf` is written at `offset`.
abbrev pub written : List ℕ → ℕ → List ℕ → ℕ → ℕ
written buf offset file i =
    if leb offset i && ltb i (offset + length buf) then byte buf (i - offset) else byte file i

byte-spliced :
    (buf : List ℕ) (offset : ℕ) (file : List ℕ) (i : ℕ)
    → offset + length buf ≤ length file
    → byte (spliced buf offset file) i ≡ written buf offset file i
byte-spliced buf offset file i h =
    let front : length (take offset file) ≡ offset = omega (arith, length-take offset file) in
    let back = drop (offset + length buf) file in
    elim (place_of offset (length buf) i) [
      | before b ↦ rw (lt→leb offset i b) (
          byte-append-left (take offset file) (buf ++ back) i (omega arith)
          ∙ byte-take offset file i b)
      | inside j e b ↦
          rw (le→leb offset i (omega arith), lt→ltb i (offset + length buf) (omega arith))
            (byte-append-right (take offset file) (buf ++ back) i j (omega arith)
              ∙ byte-append-left buf back j b
              ∙ ap (byte buf) (omega arith))
      | behind j e ↦
          rw (le→leb offset i (omega arith), ge→ltb i (offset + length buf) (omega arith))
            (byte-append-right (take offset file) (buf ++ back) i (length buf + j) (omega arith)
              ∙ byte-append-right buf back (length buf + j) j refl
              ∙ byte-drop (offset + length buf) file j i e)
    ]

length-spliced :
    (buf : List ℕ) (offset : ℕ) (file : List ℕ)
    → offset + length buf ≤ length file
    → length (spliced buf offset file) ≡ length file
length-spliced buf offset file h = omega (
  arith,
  length-append (take offset file) (buf ++ drop (offset + length buf) file),
  length-append buf (drop (offset + length buf) file),
  length-take offset file,
  length-drop (offset + length buf) file,
)

-- What a write leaves: every byte of the file is known, and so is its length.
pub record IsWritten (buf : List ℕ) (offset : ℕ) (file new : List ℕ) : Type 0 where
  pub size : length new ≡ max (length file) (offset + length buf)
  pub bytes : (i : ℕ) → byte new i ≡ written buf offset file i

-- A write to a file that stays below 2 ^ 63 bytes takes all of the buffer: the bytes of its range
-- are the buffer's, all others stay (0 where the file was shorter), and the file grows just as far
-- as it must.
pub vops_write-IsWritten :
    (buf : List ℕ) (offset : ℕ) (file : List ℕ)
    → offset + length buf < 2 ^ 63
    → (new : List ℕ) × (vops_write buf offset (ramfsfile file)
        ≡ some (pos (length buf), ramfsfile new))
      × IsWritten buf offset file new
unfolding vops_write
vops_write-IsWritten buf offset file fits =
    let n = offset + length buf in
    let room : n ≤ length (grown n file) = omega (arith, length-grown n file) in
    (
      spliced buf offset (grown n file),
      rw (lt→ltb n (2 ^ 63) fits, le→leb n (length (grown n file)) room),
      record {
        size = length-spliced buf offset (grown n file) room ∙ length-grown n file;
        bytes = λ i.
            byte-spliced buf offset (grown n file) i room
            ∙ ap (λ b. if leb offset i && ltb i n then byte buf (i - offset) else b)
                (byte-grown n file i);
      },
    )

-- A directory takes no bytes.
pub vops_write-ramfsdir :
    (buf : List ℕ) (offset : ℕ) (es : List Dentry)
    → vops_write buf offset (ramfsdir es) ≡ some (negsuc 0, ramfsdir es)
unfolding vops_write
vops_write-ramfsdir buf offset es = refl
