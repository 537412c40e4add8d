-- ===== src/Base/Sequences.antt =====
-- Searching, sorting and thinning of lists by Boolean tests, after Rust's iterators and vectors.
use Prim.Native.Nat.{ℕ, ◌≤◌}
use mathlib.Core.Path.{◌≡◌, refl, sym, ap, subst, ◌∙◌}
use mathlib.Core.Logic.{◌⊎◌, inl, inr}
use mathlib.Core.List.{List, [], ◌∷◌}
use mathlib.Core.Option.{Option, none, some}
use mathlib.Core.Bool.{Bool, true, false}
use native.Mathlib.Omega.{arith}
use canton_treasury_dvp.Base.Tests.{leb, if◌then◌else◌, Bool-cases}

-- An element of a list.
pub data Among {ℓ} {A : Type ℓ} (x : A) : List A → Type ℓ where
  first : (xs : List A) → Among x (x ∷ xs)
  later : (y : A) {xs : List A} → Among x xs → Among x (y ∷ xs)

module _ {ℓ} {A : Type ℓ} where
  unfoldable pub filter : (A → Bool) → List A → List A
  filter p [] = []
  filter p (x ∷ xs) = let rest = filter p xs in if p x then x ∷ rest else rest

  -- Before the first element whose key is not larger.
  insert_by_key : (A → ℕ) → A → List A → List A
  insert_by_key key x [] = x ∷ []
  insert_by_key key x (y ∷ ys) =
      let rest = insert_by_key key x ys in if leb (key y) (key x) then x ∷ y ∷ ys else y ∷ rest

  -- `sort_by_key(|x| Reverse(key(x)))`: stable, the largest keys first.
  unfoldable pub sort_by_key : (A → ℕ) → List A → List A
  unfolding insert_by_key
  sort_by_key key [] = []
  sort_by_key key (x ∷ xs) = insert_by_key key x (sort_by_key key xs)

  -- `dedup_by`: an element goes if it is the same as the last one that was kept.
  dedup_from : (A → A → Bool) → A → List A → List A
  dedup_from same kept [] = []
  dedup_from same kept (x ∷ xs) = elim (same x kept) [
    | true ↦ dedup_from same kept xs
    | false ↦ x ∷ dedup_from same x xs
  ]

  unfoldable pub dedup_by : (A → A → Bool) → List A → List A
  unfolding dedup_from
  dedup_by same [] = []
  dedup_by same (x ∷ xs) = x ∷ dedup_from same x xs

  max_from : (A → ℕ) → A → List A → A
  max_from key best [] = best
  max_from key best (x ∷ xs) = max_from key (if leb (key best) (key x) then x else best) xs

  -- `max_by_key`: the last of the elements with the largest key.
  unfoldable pub max_by_key : (A → ℕ) → List A → Option A
  unfolding max_from
  max_by_key key [] = none
  max_by_key key (x ∷ xs) = some (max_from key x xs)

  Among-cons : {x y : A} {ys : List A} → Among x (y ∷ ys) → (x ≡ y) ⊎ Among x ys
  Among-cons (first xs) = inl refl
  Among-cons (later y m) = inr m

  pub Among-filter :
      (p : A → Bool) (x : A) (xs : List A) → Among x (filter p xs) → Among x xs × (p x ≡ true)
  unfolding filter
  Among-filter p x [] m = elim m [ ]
  Among-filter p x (y ∷ ys) m = elim (Bool-cases (p y)) [
    | inl kept ↦ elim (Among-cons (rw kept at m)) [
      | inl same ↦ rw same (first ys, kept)
      | inr rest ↦ let r = Among-filter p x ys rest in (later y r.0, r.1)
    ]
    | inr gone ↦ let r = Among-filter p x ys (rw gone at m) in (later y r.0, r.1)
  ]

  pub filter-Among :
      (p : A → Bool) {x : A} {xs : List A} → Among x xs → p x ≡ true → Among x (filter p xs)
  unfolding filter
  filter-Among p (first xs) h = rw h (first (filter p xs))
  filter-Among p (later y m) h = elim (Bool-cases (p y)) [
    | inl kept ↦ rw kept (later y (filter-Among p m h))
    | inr gone ↦ rw gone (filter-Among p m h)
  ]

  Among-insert_by_key :
      (key : A → ℕ) (x y : A) (ys : List A)
      → Among x (insert_by_key key y ys)
      → (x ≡ y) ⊎ Among x ys
  unfolding insert_by_key
  Among-insert_by_key key x y [] m = Among-cons m
  Among-insert_by_key key x y (z ∷ zs) m = elim (Bool-cases (leb (key z) (key y))) [
    | inl here ↦ Among-cons (rw here at m)
    | inr on ↦ elim (Among-cons (rw on at m)) [
      | inl same ↦ inr (rw same (first zs))
      | inr rest ↦ elim (Among-insert_by_key key x y zs rest) [
        | inl same ↦ inl same
        | inr old ↦ inr (later z old)
      ]
    ]
  ]

  insert_by_key-Among_new : (key : A → ℕ) (y : A) (ys : List A) → Among y (insert_by_key key y ys)
  unfolding insert_by_key
  insert_by_key-Among_new key y [] = first []
  insert_by_key-Among_new key y (z ∷ zs) = elim (Bool-cases (leb (key z) (key y))) [
    | inl here ↦ rw here (first (z ∷ zs))
    | inr on ↦ rw on (later z (insert_by_key-Among_new key y zs))
  ]

  insert_by_key-Among :
      (key : A → ℕ) (y : A) {x : A} {ys : List A} → Among x ys → Among x (insert_by_key key y ys)
  unfolding insert_by_key
  insert_by_key-Among key y {x} (first zs) = elim (Bool-cases (leb (key x) (key y))) [
    | inl here ↦ rw here (later y (first zs))
    | inr on ↦ rw on (first (insert_by_key key y zs))
  ]
  insert_by_key-Among key y (later z {xs} m) = elim (Bool-cases (leb (key z) (key y))) [
    | inl here ↦ rw here (later y (later z m))
    | inr on ↦ rw on (later z (insert_by_key-Among key y m))
  ]

  pub Among-sort_by_key :
      (key : A → ℕ) (x : A) (xs : List A) → Among x (sort_by_key key xs) → Among x xs
  unfolding sort_by_key
  Among-sort_by_key key x [] m = m
  Among-sort_by_key key x (y ∷ ys) m = elim (Among-insert_by_key key x y (sort_by_key key ys) m) [
    | inl same ↦ rw same (first ys)
    | inr rest ↦ later y (Among-sort_by_key key x ys rest)
  ]

  pub sort_by_key-Among :
      (key : A → ℕ) {x : A} {xs : List A} → Among x xs → Among x (sort_by_key key xs)
  unfolding sort_by_key
  sort_by_key-Among key {x} (first xs) = insert_by_key-Among_new key x (sort_by_key key xs)
  sort_by_key-Among key (later y m) = insert_by_key-Among key y (sort_by_key-Among key m)

  List-cases : (l : List A) → (l ≡ []) ⊎ ((h : A) × (t : List A) × (l ≡ h ∷ t))
  List-cases [] = inl refl
  List-cases (h ∷ t) = inr (h, t, refl)

  not_among_nil : {x : A} {l : List A} → Among x l → l ≡ [] → ⊥
  not_among_nil (first xs) e = cc
  not_among_nil (later y m) e = cc

  pub cons-injective :
      {x y : A} {xs ys : List A} → ◌≡◌ {A = List A} (x ∷ xs) (y ∷ ys) → (x ≡ y) × (xs ≡ ys)
  cons-injective h = (cc, cc)

  insert_by_key-cons :
      (key : A → ℕ) (y h : A) (t : List A)
      → (insert_by_key key y (h ∷ t) ≡ y ∷ h ∷ t) × (key h ≤ key y)
        ⊎ ((insert_by_key key y (h ∷ t) ≡ h ∷ insert_by_key key y t) × (key y ≤ key h))
  unfolding insert_by_key
  insert_by_key-cons key y h t = elim (Bool-cases (leb (key h) (key y))) [
    | inl e ↦ inl (rw e refl, ground (arith, e))
    | inr e ↦ inr (rw e refl, ground (arith, e))
  ]

  -- The first element after sorting has the largest key.
  pub sort_by_key-head :
      (key : A → ℕ) (f : A) (rest : List A) {x : A} (xs : List A)
      → sort_by_key key xs ≡ f ∷ rest
      → Among x xs
      → key x ≤ key f
  unfolding sort_by_key
  sort_by_key-head key f rest [] e m = elim m [ ]
  sort_by_key-head key f rest {x} (y ∷ ys) e m = elim (List-cases (sort_by_key key ys)) [
    | inl empty ↦ elim (Among-cons m) [
      | inl same ↦ let top = cons-injective (rw empty at e) in rw (same, top.0) (omega arith)
      | inr old ↦ absurd (not_among_nil (sort_by_key-Among key old) empty)
    ]
    | inr (h, t, sorted) ↦
        let inserted : insert_by_key key y (h ∷ t) ≡ f ∷ rest = rw sorted at e in
        elim (insert_by_key-cons key y h t) [
          | inl (front, le) ↦
              let top = cons-injective (sym front ∙ inserted) in
              elim (Among-cons m) [
                | inl same ↦ rw (same, top.0) (omega arith)
                | inr old ↦ rw (← top.0) (omega (arith, sort_by_key-head key h t ys sorted old, le))
              ]
          | inr (behind, le) ↦
              let top = cons-injective (sym behind ∙ inserted) in
              elim (Among-cons m) [
                | inl same ↦ rw (same, ← top.0) le
                | inr old ↦ rw (← top.0) (sort_by_key-head key h t ys sorted old)
              ]
        ]
  ]

  dedup_from-cons :
      (same : A → A → Bool) (kept x : A) (xs : List A)
      → dedup_from same kept (x ∷ xs) ≡ []
      → (same x kept ≡ true) × (dedup_from same kept xs ≡ [])
  unfolding dedup_from
  dedup_from-cons same kept x xs h = elim (Bool-cases (same x kept)) [
    | inl e ↦ (e, rw (e, dedup_from) at h)
    | inr e ↦ absurd (cons_ne_nil (rw (e, dedup_from) at h))
  ]
    where
      cons_ne_nil : ◌≡◌ {A = List A} (x ∷ dedup_from same x xs) [] → ⊥
      cons_ne_nil h = cc

  dedup_from-nil :
      (same : A → A → Bool) (kept : A) {x : A} (xs : List A)
      → dedup_from same kept xs ≡ []
      → Among x xs
      → same x kept ≡ true
  dedup_from-nil same kept [] e m = elim m [ ]
  dedup_from-nil same kept (y ∷ ys) e m =
      let parts = dedup_from-cons same kept y ys e in
      elim (Among-cons m) [
        | inl eq ↦ rw eq parts.0
        | inr old ↦ dedup_from-nil same kept ys parts.1 old
      ]

  -- One element is left: it comes first, and every element is the same as it, or is it.
  pub dedup_by-one :
      (same : A → A → Bool) (f : A) {x : A} (xs : List A)
      → dedup_by same xs ≡ f ∷ []
      → ((rest : List A) × (xs ≡ f ∷ rest)) × (Among x xs → (x ≡ f) ⊎ (same x f ≡ true))
  unfolding dedup_by
  dedup_by-one same f [] e = absurd (not_among_nil (first []) (sym e))
  dedup_by-one same f (y ∷ ys) e =
      let parts = cons-injective e in
      (
        (ys, ap (λ z. z ∷ ys) parts.0),
        λ m. elim (Among-cons m) [
          | inl eq ↦ inl (eq ∙ parts.0)
          | inr old ↦ inr (rw parts.0 at (dedup_from-nil same y ys parts.1 old))
        ],
      )

  Among-max_from : (key : A → ℕ) (best : A) (xs : List A) → Among (max_from key best xs) (best ∷ xs)
  unfolding max_from
  Among-max_from key best [] = first []
  Among-max_from key best (x ∷ xs) = elim (Bool-cases (leb (key best) (key x))) [
    | inl e ↦ rw e (later best (Among-max_from key x xs))
    | inr e ↦ rw e (over (Among-cons (Among-max_from key best xs)))
  ]
    where
      over :
          (max_from key best xs ≡ best) ⊎ Among (max_from key best xs) xs
          → Among (max_from key best xs) (best ∷ x ∷ xs)
      over (inl e) = rw e (first (x ∷ xs))
      over (inr m) = later best (later x m)

  some-injective : {x y : A} → ◌≡◌ {A = Option A} (some x) (some y) → x ≡ y
  some-injective h = cc

  pub Among-max_by_key :
      (key : A → ℕ) (xs : List A) {f : A} → max_by_key key xs ≡ some f → Among f xs
  unfolding max_by_key
  Among-max_by_key key [] e = cc
  Among-max_by_key key (x ∷ xs) e =
      subst (λ y. Among y (x ∷ xs)) (some-injective e) (Among-max_from key x xs)
