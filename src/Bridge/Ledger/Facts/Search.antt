-- ===== src/Bridge/Ledger/Facts/Search.antt =====
-- bridge/src/canton_history.rs: the fact that `unique_created` or `unique_exercised` returns, among
-- all the facts that match.
use canton_treasury_dvp.Base.{
  ℕ, ◌≤◌, ◌≡◌, refl, ap, ◌⊎◌, inl, inr, Bool, true, ◌&&◌, some, List, [], ◌∷◌, ok, bytes_eq,
  bytes_eq_iff, filter, sort_by_key, dedup_by, Among, Among-filter, filter-Among, Among-sort_by_key,
  sort_by_key-Among, sort_by_key-head, dedup_by-one, Among-max_by_key, first, subst, sym, &&_true,
}
use canton_treasury_dvp.Bridge.Units.{Text}
use canton_treasury_dvp.Bridge.Ledger.Facts.{
  CreatedFact, ExercisedFact, CantonHistory, template_ends, created_key, same_created, only_one,
  unique_created, exercised_key, same_exercised, unique_exercised, created_by_cid, rank_of, is_some,
}

only_one_left {ℓ} :
    {A : Type ℓ} (l : List A) (name : Text) {f : A} → only_one l name ≡ ok f → l ≡ f ∷ []
only_one_left [] name h = cc
only_one_left (x ∷ []) name h = cc
only_one_left (x ∷ y ∷ l) name h = cc

-- One element is left of those that a test keeps.
module _ {ℓ} {A : Type ℓ} (test : A → Bool) (key : A → ℕ) (same : A → A → Bool) (xs : List A)
    (f : A) where
  module _ (left : dedup_by same (sort_by_key key (filter test xs)) ≡ f ∷ []) where
    found : Among f xs × (test f ≡ true)
    found =
        let head = (dedup_by-one same f {x = f} (sort_by_key key (filter test xs)) left).0 in
        Among-filter test f xs (
          Among-sort_by_key key f (filter test xs)
            (subst (λ l. Among f l) (sym head.1) (first head.0)))

    alike : {g : A} → Among g xs → test g ≡ true → ((g ≡ f) ⊎ (same g f ≡ true)) × (key g ≤ key f)
    alike {g} m t =
        let one = dedup_by-one same f {x = g} (sort_by_key key (filter test xs)) left in
        let kept = filter-Among test m t in
        (
          one.1 (sort_by_key-Among key kept),
          sort_by_key-head key f one.0.0 (filter test xs) one.0.1 kept,
        )

created_alike :
    (g f : CreatedFact)
    → (g ≡ f) ⊎ (same_created g f ≡ true)
    → (g.cid ≡ f.cid) × (g.update_id ≡ f.update_id)
created_alike g f (inl e) = (ap (λ x. x.cid) e, ap (λ x. x.update_id) e)
created_alike g f (inr e) =
    let both = &&_true (bytes_eq g.cid f.cid) (bytes_eq g.update_id f.update_id) e in
    ((bytes_eq_iff g.cid f.cid).0 both.0, (bytes_eq_iff g.update_id f.update_id).0 both.1)

pub unique_created-found :
    (history : CantonHistory) (template : Text) (pred : CreatedFact → Bool) (f : CreatedFact)
    → unique_created history template pred ≡ ok f
    → Among f history.created × (template_ends f template ≡ true) × (pred f ≡ true)
unfolding unique_created
unique_created-found history template pred f h =
    let r =
      found (λ fact. template_ends fact template && pred fact) created_key same_created
        history.created f (only_one_left _ template h) in
    let both = &&_true (template_ends f template) (pred f) r.1 in (r.0, both.0, both.1)

-- The fact that `unique_created` returns is one of the history's, of the template and chosen by the
-- predicate; and every such fact has its contract and its update, and has arguments only if it has.
pub unique_created-only :
    (history : CantonHistory) (template : Text) (pred : CreatedFact → Bool) (f g : CreatedFact)
    → unique_created history template pred ≡ ok f
    → Among g history.created
    → template_ends g template ≡ true
    → pred g ≡ true
    → Among f history.created
      × (template_ends f template ≡ true)
      × (pred f ≡ true)
      × (g.cid ≡ f.cid)
      × (g.update_id ≡ f.update_id)
      × (created_key g ≤ created_key f)
unfolding unique_created
unique_created-only history template pred f g h m t p =
    let r = unique_created-found history template pred f h in
    let a =
      alike (λ fact. template_ends fact template && pred fact) created_key same_created
        history.created f (only_one_left _ template h) m (rw (t, p) refl) in
    let same = created_alike g f a.0 in (r.0, r.1, r.2, same.0, same.1, a.1)

pub unique_exercised-found :
    (history : CantonHistory) (choice : Text) (pred : ExercisedFact → Bool) (f : ExercisedFact)
    → unique_exercised history choice pred ≡ ok f
    → Among f history.exercised × (f.choice ≡ choice) × (pred f ≡ true)
unfolding unique_exercised
unique_exercised-found history choice pred f h =
    let r =
      found (λ fact. bytes_eq fact.choice choice && pred fact) exercised_key same_exercised
        history.exercised f (only_one_left _ choice h) in
    let both = &&_true (bytes_eq f.choice choice) (pred f) r.1 in
    (r.0, (bytes_eq_iff f.choice choice).0 both.0, both.1)

exercised_alike :
    (g f : ExercisedFact)
    → (g ≡ f) ⊎ (same_exercised g f ≡ true)
    → (g.cid ≡ f.cid) × (g.update_id ≡ f.update_id)
exercised_alike g f (inl e) = (ap (λ x. x.cid) e, ap (λ x. x.update_id) e)
exercised_alike g f (inr e) =
    let three =
      &&_true (bytes_eq g.cid f.cid && bytes_eq g.update_id f.update_id)
        (bytes_eq g.choice f.choice) e in
    let both = &&_true (bytes_eq g.cid f.cid) (bytes_eq g.update_id f.update_id) three.0 in
    ((bytes_eq_iff g.cid f.cid).0 both.0, (bytes_eq_iff g.update_id f.update_id).0 both.1)

-- The fact that `unique_exercised` returns is one of the history's, of the choice and chosen by the
-- predicate; and every such fact is of its contract and its update, and ranks no higher by the
-- argument and the result that it has.
pub unique_exercised-only :
    (history : CantonHistory) (choice : Text) (pred : ExercisedFact → Bool) (f g : ExercisedFact)
    → unique_exercised history choice pred ≡ ok f
    → Among g history.exercised
    → g.choice ≡ choice
    → pred g ≡ true
    → Among f history.exercised
      × (f.choice ≡ choice)
      × (pred f ≡ true)
      × (g.cid ≡ f.cid)
      × (g.update_id ≡ f.update_id)
      × (exercised_key g ≤ exercised_key f)
unfolding unique_exercised
unique_exercised-only history choice pred f g h m c p =
    let r = unique_exercised-found history choice pred f h in
    let a =
      alike (λ fact. bytes_eq fact.choice choice && pred fact) exercised_key same_exercised
        history.exercised f (only_one_left _ choice h) m
        (rw ((bytes_eq_iff g.choice choice).1 c, p) refl) in
    let same = exercised_alike g f a.0 in (r.0, r.1, r.2, same.0, same.1, a.1)

pub created_by_cid-found :
    (history : CantonHistory) (cid : Text) (f : CreatedFact)
    → created_by_cid history cid ≡ some f
    → Among f history.created × (f.cid ≡ cid)
unfolding created_by_cid
created_by_cid-found history cid f h =
    let r =
      Among-filter (λ fact. bytes_eq fact.cid cid) f history.created
        (Among-max_by_key (λ fact. rank_of (is_some fact.arguments)) _ h) in
    (r.0, (bytes_eq_iff f.cid cid).0 r.1)
