-- ===== src/Prelude/Keyed.antt =====
-- Lists searched by a key of their entries: the first entry with a key, a write to it, its place.
use Prim.Native.Nat.{ℕ, suc}
use mathlib.Core.Path.{◌≡◌, refl, ◌∙◌, subst}
use mathlib.Core.Logic.{◌≢◌, inl, inr}
use mathlib.Core.Bool.{Bool}
use mathlib.Core.List.{List, [], ◌∷◌, ◌++◌}
use mathlib.Core.Option.{Option, none, some}
use native.Mathlib.Omega.{arith}
use ecmh.Prelude.Tests.{if◌then◌else◌, ◌==◌, Bool-cases, Option-cases, eq_of_==}
use ecmh.Prelude.Lists.{All, keep_if, length}

module _ {ℓ} {A : Type ℓ} (key : A → ℕ) where
  unfoldable pub find_by : List A → ℕ → Option A
  find_by [] k = none
  find_by (x ∷ xs) k = if key x == k then some x else find_by xs k

  unfoldable pub update_by : ℕ → (A → A) → List A → List A
  update_by k f [] = []
  update_by k f (x ∷ xs) = if key x == k then f x ∷ xs else x ∷ update_by k f xs

  unfoldable pub place_by : List A → ℕ → Option ℕ
  place_by [] k = none
  place_by (x ∷ xs) k =
      if key x == k then some 0 else elim (place_by xs k) [ none ↦ none | some i ↦ some (suc i) ]

  -- No two entries have one key.
  abbrev pub IsDistinct : List A → Type 0
  IsDistinct [] = Unit
  IsDistinct (x ∷ xs) = All (λ y. key x ≢ key y) xs × IsDistinct xs

  pub find_by-none : (xs : List A) (k : ℕ) → find_by xs k ≡ none → All (λ y. key y ≢ k) xs
  unfolding find_by
  find_by-none [] k h = tt
  find_by-none (x ∷ xs) k h = ground (arith, find_by-none xs k)

  pub find_by-absent :
      (n : ℕ) (xs : List A) (k : ℕ) → n ≡ k → All (λ y. n ≢ key y) xs → find_by xs k ≡ none
  unfolding find_by
  find_by-absent n [] k e a = refl
  find_by-absent n (x ∷ xs) k e a = ground (arith, a.0, find_by-absent n xs k e a.1)

  pub place_by-none : (xs : List A) (k : ℕ) → place_by xs k ≡ none → find_by xs k ≡ none
  unfolding find_by place_by
  place_by-none [] k h = refl
  place_by-none (x ∷ xs) k h = elim (Option-cases (place_by xs k)) [
    | inl e ↦ ground (arith, place_by-none xs k e)
    | inr (i, e) ↦ ground arith
  ]

  pub find_by-key : (xs : List A) (k : ℕ) (x : A) → find_by xs k ≡ some x → key x ≡ k
  unfolding find_by
  find_by-key [] k x h = cc
  find_by-key (y ∷ ys) k x h = ground (arith, find_by-key ys k x)

  pub find_by-All {κ} :
      (P : A → Type κ) (xs : List A) (k : ℕ) (x : A) → All P xs → find_by xs k ≡ some x → P x
  unfolding find_by
  find_by-All P [] k x a h = cc
  find_by-All P (y ∷ ys) k x a h = elim (Bool-cases (key y == k)) [
    | inl e ↦ let first : y ≡ x = ground arith in subst P first a.0
    | inr e ↦ find_by-All P ys k x a.1 (ground arith)
  ]

  pub find_by-update_by :
      (k j : ℕ) (f : A → A) (xs : List A)
      → ((x : A) → key x ≡ k → key (f x) ≡ key x)
      → find_by (update_by k f xs) j
        ≡ (elim (find_by xs j) [ none ↦ none | some x ↦ some (if k == j then f x else x) ])
  unfolding find_by update_by
  find_by-update_by k j f [] same = refl
  find_by-update_by k j f (x ∷ xs) same = ground (arith, same x, find_by-update_by k j f xs same)

  pub update_by-All {κ} :
      (P : A → Type κ) (k : ℕ) (f : A → A) (xs : List A)
      → ((x : A) → key x ≡ k → P x → P (f x))
      → All P xs
      → All P (update_by k f xs)
  unfolding update_by
  update_by-All P k f [] keep a = tt
  update_by-All P k f (x ∷ xs) keep a = elim (Bool-cases (key x == k)) [
    | inl e ↦ rw e (keep x (eq_of_== _ _ e) a.0, a.1)
    | inr e ↦ rw e (a.0, update_by-All P k f xs keep a.1)
  ]

  update_by-All_ne :
      (n k : ℕ) (f : A → A) (xs : List A)
      → ((x : A) → key x ≡ k → key (f x) ≡ key x)
      → All (λ y. n ≢ key y) xs
      → All (λ y. n ≢ key y) (update_by k f xs)
  update_by-All_ne n k f xs same = update_by-All _ k f xs (λ x m h e. h (e ∙ same x m))

  pub update_by-IsDistinct :
      (k : ℕ) (f : A → A) (xs : List A)
      → ((x : A) → key x ≡ k → key (f x) ≡ key x)
      → IsDistinct xs
      → IsDistinct (update_by k f xs)
  unfolding update_by
  update_by-IsDistinct k f [] same d = tt
  update_by-IsDistinct k f (x ∷ xs) same d = elim (Bool-cases (key x == k)) [
    | inl e ↦ rw e (rw (same x (eq_of_== _ _ e)) d.0, d.1)
    | inr e ↦ rw e (update_by-All_ne (key x) k f xs same d.0, update_by-IsDistinct k f xs same d.1)
  ]

  pub length-update_by : (k : ℕ) (f : A → A) (xs : List A) → length (update_by k f xs) ≡ length xs
  unfolding update_by
  length-update_by k f [] = refl
  length-update_by k f (x ∷ xs) = ground (arith, length-update_by k f xs)

  pub keep_if-All {κ} :
      (P : A → Type κ) (p : A → Bool) (xs : List A) → All P xs → All P (keep_if p xs)
  keep_if-All P p [] a = tt
  keep_if-All P p (x ∷ xs) a = elim (Bool-cases (p x)) [
    | inl e ↦ rw e (a.0, keep_if-All P p xs a.1)
    | inr e ↦ rw e (keep_if-All P p xs a.1)
  ]

  pub keep_if-IsDistinct : (p : A → Bool) (xs : List A) → IsDistinct xs → IsDistinct (keep_if p xs)
  keep_if-IsDistinct p [] d = tt
  keep_if-IsDistinct p (x ∷ xs) d = elim (Bool-cases (p x)) [
    | inl e ↦ rw e (keep_if-All _ p xs d.0, keep_if-IsDistinct p xs d.1)
    | inr e ↦ rw e (keep_if-IsDistinct p xs d.1)
  ]

  append-All_ne :
      (n : ℕ) (xs : List A) (v : A)
      → All (λ y. n ≢ key y) xs
      → n ≢ key v
      → All (λ y. n ≢ key y) (xs ++ v ∷ [])
  append-All_ne n [] v a h = (h, tt)
  append-All_ne n (x ∷ xs) v a h = (a.0, append-All_ne n xs v a.1 h)

  pub append-IsDistinct :
      (xs : List A) (v : A)
      → IsDistinct xs
      → All (λ y. key y ≢ key v) xs
      → IsDistinct (xs ++ v ∷ [])
  append-IsDistinct [] v d a = (tt, tt)
  append-IsDistinct (x ∷ xs) v d a =
      (append-All_ne (key x) xs v d.0 a.0, append-IsDistinct xs v d.1 a.1)

  pub find_by-append :
      (xs ys : List A) (k : ℕ)
      → find_by (xs ++ ys) k ≡ (elim (find_by xs k) [ none ↦ find_by ys k | some x ↦ some x ])
  unfolding find_by
  find_by-append [] ys k = refl
  find_by-append (x ∷ xs) ys k = ground (arith, find_by-append xs ys k)
