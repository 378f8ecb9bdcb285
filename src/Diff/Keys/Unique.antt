-- ===== src/Diff/Keys/Unique.antt =====
-- backend/internal/diff/keys.go: an index of items whose keys are distinct.
use urara_vision.Base.{
  ℕ, suc, ◌≡◌, ◌≢◌, refl, sym, ap, ◌∙◌, inl, inr, true, false, Option, none, some, List, [], ◌∷◌,
  arith, map, Bool-cases, Option-cases, if◌then◌else◌, In,
}
use urara_vision.Base.Text.{Text, ◌==◌, ==_iff, elem}
use urara_vision.Base.Maps.{Map, get, get_or, put, get-put, get_or-put, Distinct}
use urara_vision.Diff.Keys.{occurrence, index_from, index}

module _ {T : Type 0} (key : T → Text) where
  -- The first item with a key.
  first : Text → List T → Option T
  first k [] = none
  first k (it ∷ its) = if key it == k then some it else first k its

  abbrev or_else : Option T → Option T → Option T
  or_else none o = o
  or_else (some t) o = some t

  first_none : (k : Text) (its : List T) → elem k (map key its) ≡ false → first k its ≡ none
  unfolding first elem
  first_none k [] h = refl
  first_none k (it ∷ its) h = ground (arith, first_none k its)

  or_none : (o : Option T) → or_else o none ≡ o
  or_none none = refl
  or_none (some t) = refl

  first_put :
      (k : Text) (it : T) (its : List T) (out : Map T)
      → elem (key it) (map key its) ≡ false
      → or_else (first k its) (get k (put (key it) it out))
        ≡ or_else (first k (it ∷ its)) (get k out)
  unfolding first
  first_put k it its out h = elim (Bool-cases (key it == k)) [
    | inl y ↦
        rw
          (
            y,
            get-put (key it) k it out,
            y,
            first_none k its (ap (λ i. elem i (map key its)) (sym ((==_iff (key it) k).0 y)) ∙ h),
          )
          refl
    | inr n ↦ rw (n, get-put (key it) k it out, n) refl
  ]

  get-index_from :
      (k : Text) (its : List T) (seen : Map ℕ) (out : Map T)
      → Distinct (map key its)
      → ((j : Text) → elem j (map key its) ≡ true → get_or j seen 0 ≡ 0)
      → get k (index_from key its seen out) ≡ or_else (first k its) (get k out)
  unfolding index_from first elem
  get-index_from k [] seen out d z = refl
  get-index_from k (it ∷ its) seen out d z =
      let unseen : get_or (key it) seen 0 ≡ 0 =
        z (key it) (ground (arith, ==_iff (key it) (key it))) in
      let once : occurrence (key it) (suc (get_or (key it) seen 0)) ≡ key it =
        rw unseen (unfold occurrence in refl) in
      rw once (
        get-index_from k its (put (key it) (suc (get_or (key it) seen 0)) seen)
          (put (key it) it out) d.1
          (λ j e.
            get_or-put (key it) j (suc (get_or (key it) seen 0)) 0 seen
            ∙ other j _ (differs j e) (z j (ground arith)))
        ∙ first_put k it its out d.0)
    where
      differs : (j : Text) → elem j (map key its) ≡ true → (key it == j) ≡ false
      differs j e = elim (Bool-cases (key it == j)) [
        | inl y ↦
            absurd (cc (sym (ap (λ i. elem i (map key its)) ((==_iff (key it) j).0 y) ∙ e) ∙ d.0))
        | inr n ↦ n
      ]

      other :
          (j : Text) (n : ℕ)
          → (key it == j) ≡ false
          → get_or j seen 0 ≡ 0
          → (if key it == j then n else get_or j seen 0) ≡ 0
      other j n h e = rw h e

  In-first : (k : Text) (its : List T) (a : T) → first k its ≡ some a → In a its × (key a ≡ k)
  unfolding first
  In-first k [] a h = cc
  In-first k (it ∷ its) a h = elim (Bool-cases (key it == k)) [
    | inl y ↦
        let e : it ≡ a = ground arith in (inl (sym e), ap key (sym e) ∙ (==_iff (key it) k).0 y)
    | inr n ↦ let (m, e) = In-first k its a (ground arith) in (inr m, e)
  ]

  In-elem : (its : List T) (a : T) → In a its → elem (key a) (map key its) ≡ true
  unfolding elem
  In-elem [] a m = absurd m
  In-elem (it ∷ its) a (inl e) = ground (arith, ==_iff (key it) (key a), ap key e)
  In-elem (it ∷ its) a (inr m) = ground (arith, In-elem its a m)

  first-In : (its : List T) (a : T) → Distinct (map key its) → In a its → first (key a) its ≡ some a
  unfolding first elem
  first-In [] a d m = absurd m
  first-In (it ∷ its) a d (inl e) =
      rw ((==_iff (key it) (key a)).1 (ap key (sym e))) (ap some (sym e))
  first-In (it ∷ its) a d (inr m) = elim (Bool-cases (key it == key a)) [
    | inl y ↦ absurd (
        cc (
          sym (ap (λ i. elem i (map key its)) ((==_iff (key it) (key a)).0 y) ∙ In-elem its a m)
          ∙ d.0))
    | inr n ↦ rw n (first-In its a d.1 m)
  ]

  -- An index of items with distinct keys finds the item with a key.
  get-index :
      (k : Text) (its : List T) → Distinct (map key its) → get k (index key its) ≡ first k its
  unfolding index get
  get-index k its d =
      get-index_from k its [] [] d (λ j e. unfold get_or in refl) ∙ or_none (first k its)

  pub index-In :
      (k : Text) (its : List T) (a : T)
      → Distinct (map key its)
      → get k (index key its) ≡ some a
      → In a its × (key a ≡ k)
  index-In k its a d e = In-first k its a (sym (get-index k its d) ∙ e)

  pub In-index :
      (its : List T) (a : T)
      → Distinct (map key its)
      → In a its
      → get (key a) (index key its) ≡ some a
  In-index its a d m = get-index (key a) its d ∙ first-In its a d m

  -- The item that an index finds at a key, if any.
  pub none_at :
      (k : Text) (its : List T)
      → Distinct (map key its)
      → ((b : T) → In b its → key b ≢ k)
      → get k (index key its) ≡ none
  none_at k its d n = elim (Option-cases (get k (index key its))) [
    | inl e ↦ e
    | inr (b, e) ↦ let (m, q) = index-In k its b d e in absurd (n b m q)
  ]

  pub at_none :
      (its : List T) (b : T)
      → Distinct (map key its)
      → get (key b) (index key its) ≡ none
      → In b its
      → ⊥
  at_none its b d e m = cc (sym (In-index its b d m) ∙ e)
