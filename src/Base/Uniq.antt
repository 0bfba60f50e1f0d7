-- ===== src/Base/Uniq.antt =====
-- Laws of `_.uniq` on texts.
use duniter.Base.{
  ◌≤◌, ◌≡◌, refl, ◌↔◌, true, false, ◌||◌, String, List, [], ◌∷◌, ◌++◌, arith, str_eq_iff, includes,
  uniq_from, uniq, Distinct, if◌then◌else◌, length,
}

pub includes-append :
    (x : String) (xs ys : List String) → includes x (xs ++ ys) ≡ (includes x xs || includes x ys)
includes-append x [] ys = refl
includes-append x (y ∷ xs) ys = ground (arith, includes-append x xs ys)

uniq_from-snoc :
    (seen xs : List String) (x : String)
    → uniq_from seen (xs ++ x ∷ [])
      ≡ uniq_from seen xs ++ (if includes x seen || includes x xs then [] else x ∷ [])
uniq_from-snoc seen [] x = ground arith
uniq_from-snoc seen (y ∷ xs) x =
    ground (arith, str_eq_iff y x, uniq_from-snoc seen xs x, uniq_from-snoc (y ∷ seen) xs x)

pub uniq-snoc :
    (xs : List String) (x : String)
    → uniq (xs ++ x ∷ []) ≡ uniq xs ++ (if includes x xs then [] else x ∷ [])
uniq-snoc xs x = uniq_from-snoc [] xs x

includes-uniq_from :
    (seen xs : List String) (x : String)
    → (includes x (uniq_from seen xs) || includes x seen) ≡ (includes x xs || includes x seen)
includes-uniq_from seen [] x = refl
includes-uniq_from seen (y ∷ xs) x =
    ground (arith, str_eq_iff y x, includes-uniq_from seen xs x, includes-uniq_from (y ∷ seen) xs x)

pub includes-uniq : (xs : List String) (x : String) → includes x (uniq xs) ≡ includes x xs
includes-uniq xs x = ground (arith, includes-uniq_from [] xs x)

seen_are_dropped :
    (seen xs : List String) (x : String)
    → includes x seen ≡ true
    → includes x (uniq_from seen xs) ≡ false
seen_are_dropped seen [] x h = refl
seen_are_dropped seen (y ∷ xs) x h =
    ground (arith, str_eq_iff y x, seen_are_dropped seen xs x, seen_are_dropped (y ∷ seen) xs x)

uniq_from-Distinct : (seen xs : List String) → Distinct (uniq_from seen xs)
uniq_from-Distinct seen [] = tt
uniq_from-Distinct seen (y ∷ xs) = ground (
  arith,
  str_eq_iff y y,
  uniq_from-Distinct seen xs,
  uniq_from-Distinct (y ∷ seen) xs,
  seen_are_dropped (y ∷ seen) xs y,
)

pub uniq-Distinct : (xs : List String) → Distinct (uniq xs)
uniq-Distinct xs = uniq_from-Distinct [] xs

length-uniq_from-le : (seen xs : List String) → length (uniq_from seen xs) ≤ length xs
length-uniq_from-le seen [] = omega arith
length-uniq_from-le seen (y ∷ xs) =
    ground (arith, length-uniq_from-le seen xs, length-uniq_from-le (y ∷ seen) xs)

pub length-uniq-le : (xs : List String) → length (uniq xs) ≤ length xs
length-uniq-le xs = length-uniq_from-le [] xs

-- No element of the list has been seen.
abbrev pub Fresh : List String → List String → Type 0
Fresh seen [] = Unit
Fresh seen (x ∷ xs) = (includes x seen ≡ false) × Fresh seen xs

pub Fresh-cons :
    (y : String) (seen xs : List String)
    → Fresh (y ∷ seen) xs ↔ (Fresh seen xs × (includes y xs ≡ false))
Fresh-cons y seen [] = ground arith
Fresh-cons y seen (x ∷ xs) = ground (arith, str_eq_iff y x, str_eq_iff x y, Fresh-cons y seen xs)

length-uniq_from_iff :
    (seen xs : List String)
    → (length (uniq_from seen xs) ≡ length xs) ↔ (Distinct xs × Fresh seen xs)
length-uniq_from_iff seen [] = ground arith
length-uniq_from_iff seen (y ∷ xs) =
    ground
      (arith, length-uniq_from_iff (y ∷ seen) xs, length-uniq_from-le seen xs, Fresh-cons y seen xs)

pub Fresh-nil : (xs : List String) → Fresh [] xs
Fresh-nil [] = tt
Fresh-nil (x ∷ xs) = (refl, Fresh-nil xs)

-- Nothing is dropped exactly when no text occurs twice.
pub length-uniq_iff : (xs : List String) → (length (uniq xs) ≡ length xs) ↔ Distinct xs
length-uniq_iff xs = ground (arith, length-uniq_from_iff [] xs, Fresh-nil xs)
