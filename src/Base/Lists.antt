-- ===== src/Base/Lists.antt =====
-- Lists measured and indexed by native numbers, under the library's names.
use Prim.Native.Nat.{ℕ, zero, suc, ◌+◌, ◌-◌, ◌≤◌, ◌<◌, min}
use mathlib.Core.Path.{◌≡◌, refl, sym, ap, ◌∙◌}
use mathlib.Core.Logic.{◌⊎◌, inl, inr, ◌≢◌}
use mathlib.Core.List.{List, [], ◌∷◌, ◌++◌}
use mathlib.Core.Option.{Option, none, some}
use native.Mathlib.Omega.{arith}

module _ {ℓ} {A : Type ℓ} where
  abbrev pub length : List A → ℕ
  length [] = 0
  length (x ∷ xs) = suc (length xs)

  abbrev pub get_elem? : List A → ℕ → Option A
  get_elem? [] i = none
  get_elem? (x ∷ xs) zero = some x
  get_elem? (x ∷ xs) (suc i) = get_elem? xs i

  abbrev pub get_or : List A → ℕ → A → A
  get_or [] i d = d
  get_or (x ∷ xs) zero d = x
  get_or (x ∷ xs) (suc i) d = get_or xs i d

  abbrev pub take : ℕ → List A → List A
  take zero xs = []
  take (suc n) [] = []
  take (suc n) (x ∷ xs) = x ∷ take n xs

  abbrev pub drop : ℕ → List A → List A
  drop zero xs = xs
  drop (suc n) [] = []
  drop (suc n) (x ∷ xs) = drop n xs

  -- All but the last element, and the last.
  abbrev pub init : List A → List A
  init [] = []
  init (x ∷ []) = []
  init (x ∷ y ∷ xs) = x ∷ init (y ∷ xs)

  abbrev pub last? : List A → Option A
  last? [] = none
  last? (x ∷ []) = some x
  last? (x ∷ y ∷ xs) = last? (y ∷ xs)

  abbrev pub All {κ} : (A → Type κ) → List A → Type κ
  All P [] = Unit
  All P (x ∷ xs) = P x × All P xs

  pub length-append : (xs ys : List A) → length (xs ++ ys) ≡ length xs + length ys
  length-append [] ys = omega arith
  length-append (x ∷ xs) ys = omega (arith, length-append xs ys)

module _ {ℓ} {A : Type ℓ} where
  pub get_elem?-eq-get_or :
      (xs : List A) (i : ℕ) (d : A) → i < length xs → get_elem? xs i ≡ some (get_or xs i d)
  get_elem?-eq-get_or [] i d h = elim h [ ]
  get_elem?-eq-get_or (x ∷ xs) zero d h = refl
  get_elem?-eq-get_or (x ∷ xs) (suc i) d h = get_elem?-eq-get_or xs i d (omega arith)

  pub get_or-append_left :
      (xs ys : List A) (i : ℕ) (d : A) → i < length xs → get_or (xs ++ ys) i d ≡ get_or xs i d
  get_or-append_left [] ys i d h = elim h [ ]
  get_or-append_left (x ∷ xs) ys zero d h = refl
  get_or-append_left (x ∷ xs) ys (suc i) d h = get_or-append_left xs ys i d (omega arith)

  pub take-length-append : (xs ys : List A) → take (length xs) (xs ++ ys) ≡ xs
  take-length-append [] ys = refl
  take-length-append (x ∷ xs) ys = ap (λ l. x ∷ l) (take-length-append xs ys)

  pub drop-length-append : (xs ys : List A) → drop (length xs) (xs ++ ys) ≡ ys
  drop-length-append [] ys = refl
  drop-length-append (x ∷ xs) ys = drop-length-append xs ys

  -- A list that is not empty is all but its last element, and that element.
  pub init-last :
      (x : A) (xs : List A)
      → (l : A) × (last? (x ∷ xs) ≡ some l) × (init (x ∷ xs) ++ (l ∷ []) ≡ x ∷ xs)
  init-last x [] = (x, refl, refl)
  init-last x (y ∷ xs) = let (l, e, r) = init-last y xs in (l, e, ap (λ t. x ∷ t) r)

  pub length-init : (x : A) (xs : List A) → length (init (x ∷ xs)) ≡ length xs
  length-init x [] = refl
  length-init x (y ∷ xs) = ap suc (length-init y xs)

  pub All-append {κ} : (P : A → Type κ) (xs ys : List A) → All P xs → All P ys → All P (xs ++ ys)
  All-append P [] ys hx hy = hy
  All-append P (x ∷ xs) ys hx hy = (hx.0, All-append P xs ys hx.1 hy)

  pub All-append_left {κ} : (P : A → Type κ) (xs ys : List A) → All P (xs ++ ys) → All P xs
  All-append_left P [] ys h = tt
  All-append_left P (x ∷ xs) ys h = (h.0, All-append_left P xs ys h.1)

  pub All-append_right {κ} : (P : A → Type κ) (xs ys : List A) → All P (xs ++ ys) → All P ys
  All-append_right P [] ys h = h
  All-append_right P (x ∷ xs) ys h = All-append_right P xs ys h.1

  pub All-imp {κ μ} :
      (P : A → Type κ) (Q : A → Type μ) (xs : List A) → ((x : A) → P x → Q x) → All P xs → All Q xs
  All-imp P Q [] f h = tt
  All-imp P Q (x ∷ xs) f h = (f x h.0, All-imp P Q xs f h.1)

  pub All-get_or {κ} :
      (P : A → Type κ) (xs : List A) (i : ℕ) (d : A) → All P xs → i < length xs → P (get_or xs i d)
  All-get_or P [] i d h lt = elim lt [ ]
  All-get_or P (x ∷ xs) zero d h lt = h.0
  All-get_or P (x ∷ xs) (suc i) d h lt = All-get_or P xs i d h.1 (omega arith)

-- Being an element.
abbrev pub In : ℕ → List ℕ → Type 0
In p [] = ⊥
In p (x ∷ xs) = (p ≡ x) ⊎ In p xs

pub not_In-All : (p : ℕ) (xs : List ℕ) → ¬ In p xs → All (λ y. y ≢ p) xs
not_In-All p [] h = tt
not_In-All p (x ∷ xs) h = (λ e. h (inl (sym e)), not_In-All p xs (λ i. h (inr i)))

pub In-All {κ} : (P : ℕ → Type κ) (p : ℕ) (xs : List ℕ) → All P xs → In p xs → P p
In-All P p [] h i = absurd i
In-All P p (x ∷ xs) h (inl e) = rw e h.0
In-All P p (x ∷ xs) h (inr i) = In-All P p xs h.1 i

-- No element stands twice.
abbrev pub Distinct : List ℕ → Type 0
Distinct [] = Unit
Distinct (x ∷ xs) = All (λ y. x ≢ y) xs × Distinct xs

pub get_or-injective :
    (xs : List ℕ) (i j d : ℕ)
    → Distinct xs
    → i < length xs
    → j < length xs
    → get_or xs i d ≡ get_or xs j d
    → i ≡ j
get_or-injective [] i j d h li lj e = elim li [ ]
get_or-injective (x ∷ xs) zero zero d h li lj e = refl
get_or-injective (x ∷ xs) zero (suc j) d h li lj e =
    absurd (All-get_or (λ y. x ≢ y) xs j d h.0 (omega arith) e)
get_or-injective (x ∷ xs) (suc i) zero d h li lj e =
    absurd (All-get_or (λ y. x ≢ y) xs i d h.0 (omega arith) (sym e))
get_or-injective (x ∷ xs) (suc i) (suc j) d h li lj e =
    ap suc (get_or-injective xs i j d h.1 (omega arith) (omega arith) e)

pub Distinct-append_one :
    (xs : List ℕ) (p : ℕ) → Distinct xs → All (λ y. y ≢ p) xs → Distinct (xs ++ (p ∷ []))
Distinct-append_one [] p h n = (tt, tt)
Distinct-append_one (x ∷ xs) p h n =
    (All-append (λ y. x ≢ y) xs (p ∷ []) h.0 (n.0, tt), Distinct-append_one xs p h.1 n.1)

pub Distinct-append_left : (xs ys : List ℕ) → Distinct (xs ++ ys) → Distinct xs
Distinct-append_left [] ys h = tt
Distinct-append_left (x ∷ xs) ys h =
    (All-append_left (λ y. x ≢ y) xs ys h.0, Distinct-append_left xs ys h.1)

-- An element in the middle, and the same one in front.
pub Distinct-middle_front :
    (xs : List ℕ) (p : ℕ) (ys : List ℕ) → Distinct (xs ++ (p ∷ ys)) → Distinct (p ∷ (xs ++ ys))
Distinct-middle_front [] p ys h = h
Distinct-middle_front (x ∷ xs) p ys h =
    let rest = Distinct-middle_front xs p ys h.1 in
    let left = All-append_left (λ y. x ≢ y) xs (p ∷ ys) h.0 in
    let right = All-append_right (λ y. x ≢ y) xs (p ∷ ys) h.0 in
    ((λ e. right.0 (sym e), rest.0), (All-append (λ y. x ≢ y) xs ys left right.1, rest.1))

pub Distinct-front_middle :
    (xs : List ℕ) (p : ℕ) (ys : List ℕ) → Distinct (p ∷ (xs ++ ys)) → Distinct (xs ++ (p ∷ ys))
Distinct-front_middle [] p ys h = h
Distinct-front_middle (x ∷ xs) p ys h =
    let left = All-append_left (λ y. x ≢ y) xs ys h.1.0 in
    let right = All-append_right (λ y. x ≢ y) xs ys h.1.0 in
    (
      All-append (λ y. x ≢ y) xs (p ∷ ys) left (λ e. h.0.0 (sym e), right),
      Distinct-front_middle xs p ys (h.0.1, h.1.1),
    )

pub Distinct-append_right : (xs ys : List ℕ) → Distinct (xs ++ ys) → Distinct ys
Distinct-append_right [] ys h = h
Distinct-append_right (x ∷ xs) ys h = Distinct-append_right xs ys h.1

-- An element of the second part is none of the first.
pub Distinct-apart :
    (xs ys : List ℕ) (i : ℕ) → Distinct (xs ++ ys) → i < length ys → All (λ x. x ≢ get_or ys i 0) xs
Distinct-apart [] ys i h lt = tt
Distinct-apart (x ∷ xs) ys i h lt = (
  All-get_or (λ y. x ≢ y) ys i 0 (All-append_right (λ y. x ≢ y) xs ys h.0) lt,
  Distinct-apart xs ys i h.1 lt,
)

-- The last element differs from those before it.
pub Distinct-last : (xs : List ℕ) (p : ℕ) → Distinct (xs ++ (p ∷ [])) → All (λ y. y ≢ p) xs
Distinct-last [] p h = tt
Distinct-last (x ∷ xs) p h =
    ((All-append_right (λ y. x ≢ y) xs (p ∷ []) h.0).0, Distinct-last xs p h.1)

module _ {ℓ} {A : Type ℓ} where
  pub take_zero : (n : ℕ) (xs : List A) → n ≡ 0 → take n xs ≡ []
  take_zero zero xs h = refl
  take_zero (suc n) xs h = absurd (omega arith)

  pub drop_all : (n : ℕ) (xs : List A) → length xs ≤ n → drop n xs ≡ []
  drop_all zero [] h = refl
  drop_all zero (x ∷ xs) h = absurd (omega arith)
  drop_all (suc n) [] h = refl
  drop_all (suc n) (x ∷ xs) h = drop_all n xs (omega arith)

  pub take_all : (n : ℕ) (xs : List A) → length xs ≤ n → take n xs ≡ xs
  take_all zero [] h = refl
  take_all zero (x ∷ xs) h = absurd (omega arith)
  take_all (suc n) [] h = refl
  take_all (suc n) (x ∷ xs) h = ap (λ l. x ∷ l) (take_all n xs (omega arith))

  pub take-nil : (n : ℕ) → take {A = A} n [] ≡ []
  take-nil zero = refl
  take-nil (suc n) = refl

  pub drop-nil : (n : ℕ) → drop {A = A} n [] ≡ []
  drop-nil zero = refl
  drop-nil (suc n) = refl

module _ {ℓ} {A : Type ℓ} where
  pub length-take : (n : ℕ) (xs : List A) → length (take n xs) ≡ min n (length xs)
  length-take zero xs = omega arith
  length-take (suc n) [] = omega arith
  length-take (suc n) (x ∷ xs) = omega (arith, length-take n xs)

  pub length-drop : (n : ℕ) (xs : List A) → length (drop n xs) ≡ length xs - n
  length-drop zero xs = omega arith
  length-drop (suc n) [] = omega arith
  length-drop (suc n) (x ∷ xs) = omega (arith, length-drop n xs)

  pub drop_zero : (n : ℕ) (xs : List A) → n ≡ 0 → drop n xs ≡ xs
  drop_zero zero xs h = refl
  drop_zero (suc n) xs h = absurd (omega arith)

  pub take-min : (n : ℕ) (xs : List A) → take (min n (length xs)) xs ≡ take n xs
  take-min zero xs =
      let none_asked : min 0 (length xs) ≡ 0 = omega arith in ap (λ k. take k xs) none_asked
  take-min (suc n) [] =
      let none_there : min (suc n) 0 ≡ 0 = omega arith in ap (λ k. take {A = A} k []) none_there
  take-min (suc n) (x ∷ xs) =
      ap (λ k. take k (x ∷ xs)) (min_suc n (length xs)) ∙ ap (λ l. x ∷ l) (take-min n xs)
    where
      min_suc : (a b : ℕ) → min (suc a) (suc b) ≡ suc (min a b)
      min_suc a b = omega arith

  -- A write out of bounds changes nothing.
  abbrev pub set : List A → ℕ → A → List A
  set [] i v = []
  set (x ∷ xs) zero v = v ∷ xs
  set (x ∷ xs) (suc i) v = x ∷ set xs i v

  pub get_elem?_past : (xs : List A) (i : ℕ) → length xs ≤ i → get_elem? xs i ≡ none
  get_elem?_past [] i h = refl
  get_elem?_past (x ∷ xs) zero h = absurd (omega arith)
  get_elem?_past (x ∷ xs) (suc i) h = get_elem?_past xs i (omega arith)

  pub get_elem?-append :
      (xs ys : List A) (i : ℕ) (x : A) → get_elem? xs i ≡ some x → get_elem? (xs ++ ys) i ≡ some x
  get_elem?-append [] ys i x h = cc
  get_elem?-append (y ∷ xs) ys zero x h = h
  get_elem?-append (y ∷ xs) ys (suc i) x h = get_elem?-append xs ys i x h

  pub set-append :
      (xs ys : List A) (i : ℕ) (x : A) → i < length xs → set (xs ++ ys) i x ≡ set xs i x ++ ys
  set-append [] ys i x h = absurd (omega arith)
  set-append (y ∷ xs) ys zero x h = refl
  set-append (y ∷ xs) ys (suc i) x h = ap (λ l. y ∷ l) (set-append xs ys i x (omega arith))

  pub length-set : (xs : List A) (i : ℕ) (v : A) → length (set xs i v) ≡ length xs
  length-set [] i v = refl
  length-set (x ∷ xs) zero v = refl
  length-set (x ∷ xs) (suc i) v = ap suc (length-set xs i v)

  pub get_or-set : (xs : List A) (i : ℕ) (v d : A) → i < length xs → get_or (set xs i v) i d ≡ v
  get_or-set [] i v d h = elim h [ ]
  get_or-set (x ∷ xs) zero v d h = refl
  get_or-set (x ∷ xs) (suc i) v d h = get_or-set xs i v d (omega arith)

  pub get_or-set_ne :
      (xs : List A) (i j : ℕ) (v d : A) → i ≢ j → get_or (set xs i v) j d ≡ get_or xs j d
  get_or-set_ne [] i j v d h = refl
  get_or-set_ne (x ∷ xs) zero zero v d h = absurd (h refl)
  get_or-set_ne (x ∷ xs) zero (suc j) v d h = refl
  get_or-set_ne (x ∷ xs) (suc i) zero v d h = refl
  get_or-set_ne (x ∷ xs) (suc i) (suc j) v d h = get_or-set_ne xs i j v d (λ e. h (ap suc e))

  -- A list around one of its elements, before and after a write there.
  pub around :
      (xs : List A) (i : ℕ) (v d : A)
      → i < length xs
      → (front : List A) × (back : List A) × (xs ≡ front ++ (get_or xs i d ∷ back))
        × (set xs i v ≡ front ++ (v ∷ back))
  around [] i v d h = elim h [ ]
  around (x ∷ xs) zero v d h = ([], xs, refl, refl)
  around (x ∷ xs) (suc i) v d h =
      let (front, back, e, e') = around xs i v d (omega arith) in
      (x ∷ front, back, ap (λ l. x ∷ l) e, ap (λ l. x ∷ l) e')

  -- Two elements that change places.
  pub around_two :
      (xs : List A) (i j : ℕ) (d : A)
      → i < j
      → j < length xs
      → (front : List A) × (middle : List A) × (back : List A) × (xs
          ≡ front ++ (get_or xs i d ∷ (middle ++ (get_or xs j d ∷ back))))
        × (set (set xs j (get_or xs i d)) i (get_or xs j d)
            ≡ front ++ (get_or xs j d ∷ (middle ++ (get_or xs i d ∷ back))))
  around_two [] i j d h h' = absurd (omega arith)
  around_two (x ∷ xs) i zero d h h' = absurd (omega arith)
  around_two (x ∷ xs) zero (suc j) d h h' =
      let (front, back, e1, e2) = around xs j x d (omega arith) in
      ([], front, back, ap (λ l. x ∷ l) e1, ap (λ l. get_or xs j d ∷ l) e2)
  around_two (x ∷ xs) (suc i) (suc j) d h h' =
      let (front, middle, back, e1, e2) = around_two xs i j d (omega arith) (omega arith) in
      (x ∷ front, middle, back, ap (λ l. x ∷ l) e1, ap (λ l. x ∷ l) e2)

  pub get_or-append_here : (xs ys : List A) (x d : A) → get_or (xs ++ (x ∷ ys)) (length xs) d ≡ x
  get_or-append_here [] ys x d = refl
  get_or-append_here (z ∷ xs) ys x d = get_or-append_here xs ys x d

  pub take-append-drop : (n : ℕ) (xs : List A) → take n xs ++ drop n xs ≡ xs
  take-append-drop zero xs = refl
  take-append-drop (suc n) [] = refl
  take-append-drop (suc n) (x ∷ xs) = ap (λ l. x ∷ l) (take-append-drop n xs)

  pub set_comm :
      (xs : List A) (i j : ℕ) (a b : A) → i ≢ j → set (set xs i a) j b ≡ set (set xs j b) i a
  set_comm [] i j a b h = refl
  set_comm (x ∷ xs) zero zero a b h = absurd (h refl)
  set_comm (x ∷ xs) zero (suc j) a b h = refl
  set_comm (x ∷ xs) (suc i) zero a b h = refl
  set_comm (x ∷ xs) (suc i) (suc j) a b h =
      ap (λ l. x ∷ l) (set_comm xs i j a b (λ e. h (ap suc e)))

  pub init-append : (xs : List A) (x : A) → init (xs ++ (x ∷ [])) ≡ xs
  init-append [] x = refl
  init-append (y ∷ []) x = refl
  init-append (y ∷ z ∷ xs) x = ap (λ l. y ∷ l) (init-append (z ∷ xs) x)

  pub last?-append : (xs : List A) (x : A) → last? (xs ++ (x ∷ [])) ≡ some x
  last?-append [] x = refl
  last?-append (y ∷ []) x = refl
  last?-append (y ∷ z ∷ xs) x = last?-append (z ∷ xs) x

  -- A list that is not empty, as its last element and what stands before it.
  pub unsnoc : (xs : List A) → 0 < length xs → (ys : List A) × (y : A) × (xs ≡ ys ++ (y ∷ []))
  unsnoc [] h = absurd (omega arith)
  unsnoc (x ∷ xs) h = let (l, _, e) = init-last x xs in (init (x ∷ xs), l, sym e)
