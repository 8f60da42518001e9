-- ===== src/Fs/Fat32/Names/Laws.antt =====
-- The names that fs/fat32.c looks for in a directory.
use chris_os.Base.{ℕ, zero, suc, ◌+◌, ◌-◌, ◌≤◌, ◌≡◌, refl, ap₂, ◌∙◌, inl, inr, List, [], ◌∷◌}
use chris_os.Base.{map, arith, ◌==◌, Bool-cases, length, replicate, length-append}
use chris_os.Base.{length-replicate}
use chris_os.Fs.Fat32.Names.{base_part, ext_part, extension, name_to_fat83, padded, upper}

upper-upper : (c : ℕ) → upper (upper c) ≡ upper c
unfolding upper
upper-upper c = ground arith

upper-dot : (c : ℕ) → (upper c == b'.') ≡ (c == b'.')
unfolding upper
upper-dot c = ground arith

length-base_part : (n : ℕ) (p : List ℕ) → length (base_part n p).0 ≤ n
unfolding base_part
length-base_part zero p = omega arith
length-base_part (suc n) [] = omega arith
length-base_part (suc n) (c ∷ p) = ground (arith, length-base_part n p)

length-ext_part : (n : ℕ) (p : List ℕ) → length (ext_part n p) ≤ n
unfolding ext_part
length-ext_part zero p = omega arith
length-ext_part (suc n) [] = omega arith
length-ext_part (suc n) (c ∷ p) = omega (arith, length-ext_part n p)

length-extension : (p : List ℕ) → length (extension p) ≤ 3
unfolding extension
length-extension [] = omega arith
length-extension (c ∷ p) = ground (arith, length-ext_part 3 p)

length-padded : (n : ℕ) (xs : List ℕ) → length xs ≤ n → length (padded n xs) ≡ n
length-padded n xs h =
    rw
      (
        length-append xs (replicate (n - length xs) b' '),
        length-replicate {A = ℕ} (n - length xs) b' ',
      )
      (omega arith)

base_part-upper :
    (n : ℕ) (p : List ℕ)
    → base_part n (map upper p) ≡ ((base_part n p).0, map upper (base_part n p).1)
unfolding base_part
base_part-upper zero p = refl
base_part-upper (suc n) [] = refl
base_part-upper (suc n) (c ∷ p) =
    rw (upper-dot c, upper-upper c, base_part-upper n p)
      (elim (Bool-cases (c == b'.')) [ inl e ↦ rw e refl | inr e ↦ rw e refl ])

ext_part-upper : (n : ℕ) (p : List ℕ) → ext_part n (map upper p) ≡ ext_part n p
unfolding ext_part
ext_part-upper zero p = refl
ext_part-upper (suc n) [] = refl
ext_part-upper (suc n) (c ∷ p) = ap₂ ◌∷◌ (upper-upper c) (ext_part-upper n p)

extension-upper : (p : List ℕ) → extension (map upper p) ≡ extension p
unfolding extension
extension-upper [] = refl
extension-upper (c ∷ p) = rw (upper-dot c, ext_part-upper 3 p) refl

-- Every name becomes exactly the eleven bytes of an entry, and two names that differ in the case of
-- their letters only become the same.
pub name_to_fat83_lem :
    (name : List ℕ)
    → (length (name_to_fat83 name) ≡ 11) × (name_to_fat83 (map upper name) ≡ name_to_fat83 name)
unfolding name_to_fat83
name_to_fat83_lem name =
    let base = base_part 8 name in
    let whole =
      length-append (padded 8 base.0) (padded 3 (extension base.1))
      ∙ ap₂ ◌+◌ (length-padded 8 base.0 (length-base_part 8 name))
          (length-padded 3 (extension base.1) (length-extension base.1)) in
    (whole, rw (base_part-upper 8 name, extension-upper base.1) refl)
