-- ===== src/Retention/Order.antt =====
-- `sorted(items, key=lambda item: (item.created, item.object_id), reverse=True)` of
-- services/retention.py: a stable sort, newest first, which raises TypeError when it has to
-- compare a naive with an aware datetime.
use mathlib.Core.List.{Perm}
use mathlib.Core.List.Perm
use netbox_plugin_backup.Prelude.{
  ℕ, ◌≡◌, ◌<◌, ◌≤◌, refl, ◌⊎◌, inl, inr, Bool, true, false, ◌&&◌, ◌||◌, not, List, [], ◌∷◌, Result,
  ok, err, All, All-map, Any, any_of, ltb, leb, nat_beq, Bool-cases, arith, if◌then◌else◌,
}
use netbox_plugin_backup.Clock.{DateTime, PyError}

module _ {A : Type 0} (stamp : A → DateTime) (ident : A → ℕ) where
  -- `x` stands before `y`: its key is not smaller.
  abbrev pub precedes : A → A → Bool
  precedes x y =
      ltb (stamp y).micros (stamp x).micros
      || (nat_beq (stamp y).micros (stamp x).micros && leb (ident y) (ident x))

  unfoldable pub insert_newest : A → List A → List A
  insert_newest x [] = x ∷ []
  insert_newest x (y ∷ ys) = if precedes x y then x ∷ y ∷ ys else y ∷ insert_newest x ys

  unfoldable pub order_newest : List A → List A
  unfolding insert_newest
  order_newest [] = []
  order_newest (x ∷ xs) = insert_newest x (order_newest xs)

  unfoldable pub sort_newest : List A → Result PyError (List A)
  sort_newest xs =
      if any_of (λ x. (stamp x).is_aware) xs && any_of (λ x. not (stamp x).is_aware) xs
      then err PyError.type_error
      else ok (order_newest xs)

  abbrev pub IsNewestFirst : List A → Type 0
  IsNewestFirst [] = Unit
  IsNewestFirst (x ∷ xs) = All (λ y. precedes x y ≡ true) xs × IsNewestFirst xs

module _ {A : Type 0} (stamp : A → DateTime) (ident : A → ℕ) where
  insert_newest-perm : (x : A) (ys : List A) → Perm (insert_newest stamp ident x ys) (x ∷ ys)
  unfolding insert_newest
  insert_newest-perm x [] = Perm.refl (x ∷ [])
  insert_newest-perm x (y ∷ ys) = elim (Bool-cases (precedes stamp ident x y)) [
    | inl h ↦ rw h (Perm.refl (x ∷ y ∷ ys))
    | inr h ↦ rw h (Perm.trans (Perm.cons y (insert_newest-perm x ys)) (Perm.swap x y ys))
  ]

  pub order_newest-perm : (xs : List A) → Perm (order_newest stamp ident xs) xs
  unfolding order_newest
  order_newest-perm [] = Perm.refl []
  order_newest-perm (x ∷ xs) =
      Perm.trans (insert_newest-perm x (order_newest stamp ident xs))
        (Perm.cons x (order_newest-perm xs))

  precedes_total : (x y : A) → precedes stamp ident x y ≡ false → precedes stamp ident y x ≡ true
  precedes_total x y h = ground arith

  precedes_trans :
      (x y z : A)
      → precedes stamp ident x y ≡ true
      → precedes stamp ident y z ≡ true
      → precedes stamp ident x z ≡ true
  precedes_trans x y z h k = ground arith

  All-precedes :
      (x y : A) (ys : List A)
      → precedes stamp ident x y ≡ true
      → All (λ z. precedes stamp ident y z ≡ true) ys
      → All (λ z. precedes stamp ident x z ≡ true) ys
  All-precedes x y [] h k = tt
  All-precedes x y (z ∷ ys) h k = (precedes_trans x y z h k.0, All-precedes x y ys h k.1)

  -- What precedes the new item and all the others precedes all of the longer list.
  All-insert_newest :
      (P : A → Type 0) (x : A) (ys : List A)
      → P x
      → All P ys
      → All P (insert_newest stamp ident x ys)
  unfolding insert_newest
  All-insert_newest P x [] h k = (h, tt)
  All-insert_newest P x (y ∷ ys) h k = elim (Bool-cases (precedes stamp ident x y)) [
    | inl e ↦ rw e (h, (k.0, k.1))
    | inr e ↦ rw e (k.0, All-insert_newest P x ys h k.1)
  ]

  insert_newest-IsNewestFirst :
      (x : A) (ys : List A)
      → IsNewestFirst stamp ident ys
      → IsNewestFirst stamp ident (insert_newest stamp ident x ys)
  unfolding insert_newest
  insert_newest-IsNewestFirst x [] h = (tt, tt)
  insert_newest-IsNewestFirst x (y ∷ ys) h = elim (Bool-cases (precedes stamp ident x y)) [
    | inl e ↦ rw e ((e, All-precedes x y ys e h.0), (h.0, h.1))
    | inr e ↦ rw e (
      All-insert_newest (λ z. precedes stamp ident y z ≡ true) x ys (precedes_total x y e) h.0,
      insert_newest-IsNewestFirst x ys h.1,
    )
  ]

  pub order_newest-IsNewestFirst :
      (xs : List A) → IsNewestFirst stamp ident (order_newest stamp ident xs)
  unfolding order_newest
  order_newest-IsNewestFirst [] = tt
  order_newest-IsNewestFirst (x ∷ xs) =
      insert_newest-IsNewestFirst x (order_newest stamp ident xs) (order_newest-IsNewestFirst xs)

  -- Sorting gives a permutation of the list in which every item precedes all that follow it.
  pub order_newest_lem :
      (xs : List A)
      → Perm (order_newest stamp ident xs) xs
        × IsNewestFirst stamp ident (order_newest stamp ident xs)
  order_newest_lem xs = (order_newest-perm xs, order_newest-IsNewestFirst xs)

  -- `y` is no newer than `x`: an earlier time, or the same time and an id that is not larger.
  abbrev pub IsNoNewer : A → A → Type 0
  IsNoNewer x y =
      ((stamp y).micros < (stamp x).micros)
      ⊎ (((stamp y).micros ≡ (stamp x).micros) × (ident y ≤ ident x))

  pub precedes-IsNoNewer : (x y : A) → precedes stamp ident x y ≡ true → IsNoNewer x y
  precedes-IsNoNewer x y h = elim (Bool-cases (ltb (stamp y).micros (stamp x).micros)) [
    | inl e ↦ inl (ground arith)
    | inr e ↦ inr (ground arith, ground arith)
  ]

  -- Every item of the list is followed only by items that are no newer.
  abbrev pub IsDescending : List A → Type 0
  IsDescending [] = Unit
  IsDescending (x ∷ xs) = All (IsNoNewer x) xs × IsDescending xs

  IsNewestFirst-IsDescending : (xs : List A) → IsNewestFirst stamp ident xs → IsDescending xs
  IsNewestFirst-IsDescending [] h = tt
  IsNewestFirst-IsDescending (x ∷ xs) h =
      (All-map _ _ (λ y p. precedes-IsNoNewer x y p) xs h.0, IsNewestFirst-IsDescending xs h.1)

  pub order_newest-All :
      (P : A → Type 0) (xs : List A) → All P xs → All P (order_newest stamp ident xs)
  unfolding order_newest
  order_newest-All P [] h = tt
  order_newest-All P (x ∷ xs) h =
      All-insert_newest P x (order_newest stamp ident xs) h.0 (order_newest-All P xs h.1)

  pub no_naive :
      (xs : List A)
      → All (λ x. (stamp x).is_aware ≡ true) xs
      → any_of (λ x. not (stamp x).is_aware) xs ≡ false
  no_naive [] h = refl
  no_naive (x ∷ xs) h = ground (arith, no_naive xs)

  -- Aware times can always be sorted.
  pub sort_newest-ok :
      (xs : List A)
      → All (λ x. (stamp x).is_aware ≡ true) xs
      → sort_newest stamp ident xs ≡ ok (order_newest stamp ident xs)
  unfolding sort_newest
  sort_newest-ok xs h = ground (arith, no_naive xs h)

  insert_newest-Any :
      (P : A → Type 0) (x : A) (ys : List A)
      → P x ⊎ Any P ys
      → Any P (insert_newest stamp ident x ys)
  unfolding insert_newest
  insert_newest-Any P x [] h = h
  insert_newest-Any P x (y ∷ ys) h = elim (Bool-cases (precedes stamp ident x y)) [
    | inl e ↦ rw e h
    | inr e ↦ rw e (elim h [
      | inl p ↦ inr (insert_newest-Any P x ys (inl p))
      | inr n ↦ elim n [ inl q ↦ inl q | inr r ↦ inr (insert_newest-Any P x ys (inr r)) ]
    ])
  ]

  pub order_newest-Any :
      (P : A → Type 0) (xs : List A) → Any P xs → Any P (order_newest stamp ident xs)
  unfolding order_newest
  order_newest-Any P [] n = n
  order_newest-Any P (x ∷ xs) h =
      insert_newest-Any P x (order_newest stamp ident xs)
        (elim h [ inl p ↦ inl p | inr n ↦ inr (order_newest-Any P xs n) ])

  -- Aware times can be sorted. The result has exactly the items of the list, and every item is
  -- followed only by items of an earlier time, or of the same time and an id that is not larger.
  pub sort_newest_lem :
      (xs : List A)
      → All (λ x. (stamp x).is_aware ≡ true) xs
      → (ys : List A) × (sort_newest stamp ident xs ≡ ok ys) × Perm ys xs × IsDescending ys
  sort_newest_lem xs h = (
    order_newest stamp ident xs,
    sort_newest-ok xs h,
    order_newest-perm xs,
    IsNewestFirst-IsDescending (order_newest stamp ident xs) (order_newest-IsNewestFirst xs),
  )
