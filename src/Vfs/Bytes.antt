-- ===== src/Vfs/Bytes.antt =====
-- Parts of byte lists, by position: what the slices of kernel/src/vfs/ramfs.rs read and write.
use nyaux_kc.Base.{
  ℕ, zero, suc, ◌+◌, ◌-◌, ◌≤◌, ◌<◌, ◌≡◌, refl, List, [], ◌∷◌, ◌++◌, arith, length, min, ap,
}

abbrev pub take : ℕ → List ℕ → List ℕ
take zero xs = []
take (suc n) [] = []
take (suc n) (x ∷ xs) = x ∷ take n xs

abbrev pub drop : ℕ → List ℕ → List ℕ
drop zero xs = xs
drop (suc n) [] = []
drop (suc n) (x ∷ xs) = drop n xs

-- `Vec::resize(n, 0)`
abbrev pub resize : ℕ → List ℕ → List ℕ
resize zero xs = []
resize (suc n) [] = 0 ∷ resize n []
resize (suc n) (x ∷ xs) = x ∷ resize n xs

-- The byte at a position, and 0 behind the end.
abbrev pub byte : List ℕ → ℕ → ℕ
byte [] i = 0
byte (x ∷ xs) zero = x
byte (x ∷ xs) (suc i) = byte xs i

pub length-take : (n : ℕ) (xs : List ℕ) → length (take n xs) ≡ min n (length xs)
length-take zero xs = omega arith
length-take (suc n) [] = omega arith
length-take (suc n) (x ∷ xs) = omega (arith, length-take n xs)

pub length-drop : (n : ℕ) (xs : List ℕ) → length (drop n xs) ≡ length xs - n
length-drop zero xs = omega arith
length-drop (suc n) [] = omega arith
length-drop (suc n) (x ∷ xs) = omega (arith, length-drop n xs)

pub length-resize : (n : ℕ) (xs : List ℕ) → length (resize n xs) ≡ n
length-resize zero xs = refl
length-resize (suc n) [] = omega (arith, length-resize n [])
length-resize (suc n) (x ∷ xs) = omega (arith, length-resize n xs)

pub byte-take : (n : ℕ) (xs : List ℕ) (i : ℕ) → i < n → byte (take n xs) i ≡ byte xs i
byte-take zero xs i h = absurd (omega arith)
byte-take (suc n) [] i h = refl
byte-take (suc n) (x ∷ xs) zero h = refl
byte-take (suc n) (x ∷ xs) (suc i) h = byte-take n xs i (omega arith)

pub byte-drop : (n : ℕ) (xs : List ℕ) (i j : ℕ) → j ≡ n + i → byte (drop n xs) i ≡ byte xs j
byte-drop zero xs i j h = ap (byte xs) (omega arith)
byte-drop (suc n) [] i j h = refl
byte-drop (suc n) (x ∷ xs) i zero h = absurd (omega arith)
byte-drop (suc n) (x ∷ xs) i (suc j) h = byte-drop n xs i j (omega arith)

pub byte-resize : (n : ℕ) (xs : List ℕ) (i : ℕ) → length xs ≤ n → byte (resize n xs) i ≡ byte xs i
byte-resize zero [] i h = refl
byte-resize zero (x ∷ xs) i h = absurd (omega arith)
byte-resize (suc n) [] zero h = refl
byte-resize (suc n) [] (suc i) h = byte-resize n [] i (omega arith)
byte-resize (suc n) (x ∷ xs) zero h = refl
byte-resize (suc n) (x ∷ xs) (suc i) h = byte-resize n xs i (omega arith)

pub byte-append-left : (xs ys : List ℕ) (i : ℕ) → i < length xs → byte (xs ++ ys) i ≡ byte xs i
byte-append-left [] ys i h = absurd (omega arith)
byte-append-left (x ∷ xs) ys zero h = refl
byte-append-left (x ∷ xs) ys (suc i) h = byte-append-left xs ys i (omega arith)

pub byte-append-right :
    (xs ys : List ℕ) (i j : ℕ) → i ≡ length xs + j → byte (xs ++ ys) i ≡ byte ys j
byte-append-right [] ys i j h = ap (byte ys) (omega arith)
byte-append-right (x ∷ xs) ys zero j h = absurd (omega arith)
byte-append-right (x ∷ xs) ys (suc i) j h = byte-append-right xs ys i j (omega arith)

pub take-append : (xs ys : List ℕ) → take (length xs) (xs ++ ys) ≡ xs
take-append [] ys = refl
take-append (x ∷ xs) ys = rw (take-append xs ys)

pub drop-append : (xs ys : List ℕ) → drop (length xs) (xs ++ ys) ≡ ys
drop-append [] ys = refl
drop-append (x ∷ xs) ys = drop-append xs ys

pub drop_all : (xs : List ℕ) → drop (length xs) xs ≡ []
drop_all [] = refl
drop_all (x ∷ xs) = drop_all xs
