-- ===== src/Retention/Sampling/Latest.antt =====
-- `_mark_latest_per_bucket` of services/retention.py: which revision of a bucket is marked.
use netbox_plugin_backup.Prelude.{
  ℕ, ◌≡◌, refl, ap, ◌⊎◌, inl, inr, Bool, true, false, not, ◌&&◌, List, [], ◌∷◌, ◌++◌, Key, ◌==◌,
  any_of, arith, if◌then◌else◌,
}
use netbox_plugin_backup.Retention.{RevisionCandidate, Reason, has_reason}
use netbox_plugin_backup.Retention.Sampling.{
  Reasons, append_reason, is_seen, mark_latest_per_bucket,
}
use netbox_plugin_backup.Retention.Sampling.Grows.{
  Grows, Grows-refl, Grows-trans, append_reason-has, append_if-Grows, append_if-only,
}

module _ {K : Type 0} ⦃e : Key K⦄ where
  is_seen_refl : (k : K) (seen : List K) → is_seen k (k ∷ seen) ≡ true
  unfolding is_seen
  is_seen_refl k seen = rw ((e.same_iff k k).1 refl)

  module _ (r : Reason) (eligible : RevisionCandidate → Bool) (bucket : RevisionCandidate → K) where
    abbrev is_new : RevisionCandidate → List K → Bool
    is_new x seen = eligible x && not (is_seen (bucket x) seen)

    abbrev next_seen : RevisionCandidate → List K → List K
    next_seen x seen = if is_new x seen then bucket x ∷ seen else seen

    abbrev next_reasons : RevisionCandidate → List K → Reasons → Reasons
    next_reasons x seen d = if is_new x seen then append_reason x.object_id r d else d

    pub mark_latest-Grows :
        (seen : List K) (xs : List RevisionCandidate) (d : Reasons)
        → Grows d (mark_latest_per_bucket r eligible bucket seen xs d)
    unfolding mark_latest_per_bucket
    mark_latest-Grows seen [] d = Grows-refl d
    mark_latest-Grows seen (x ∷ xs) d =
        Grows-trans (append_if-Grows (is_new x seen) x.object_id r d)
          (mark_latest-Grows (next_seen x seen) xs (next_reasons x seen d))

    -- The bucket of `x` holds an eligible member of `xs`.
    abbrev pub taken : RevisionCandidate → List RevisionCandidate → Bool
    taken x xs = any_of (λ y. eligible y && (bucket x == bucket y)) xs

    -- After the newer ones, the bucket is seen if it was, or if one of them took it.
    mark_latest-has_from :
        (seen : List K) (newer older : List RevisionCandidate) (x : RevisionCandidate) (d : Reasons)
        → eligible x ≡ true
        → taken x newer ≡ false
        → is_seen (bucket x) seen ≡ false
        → has_reason r
            (mark_latest_per_bucket r eligible bucket seen (newer ++ x ∷ older) d x.object_id)
          ≡ true
    unfolding mark_latest_per_bucket
    mark_latest-has_from seen [] older x d h t s =
        (mark_latest-Grows (next_seen x seen) older (next_reasons x seen d)).at x.object_id r
          (rw (h, s) (append_reason-has x.object_id r d))
    mark_latest-has_from seen (y ∷ newer) older x d h t s =
        mark_latest-has_from (next_seen y seen) newer older x (next_reasons y seen d) h
          (ground arith) (unfold is_seen in ground (arith, e.same_iff (bucket x) (bucket y)))

    pub mark_latest-has :
        (newer older : List RevisionCandidate) (x : RevisionCandidate) (d : Reasons)
        → eligible x ≡ true
        → taken x newer ≡ false
        → has_reason r
            (mark_latest_per_bucket r eligible bucket [] (newer ++ x ∷ older) d x.object_id)
          ≡ true
    mark_latest-has newer older x d h t =
        mark_latest-has_from [] newer older x d h t (unfold is_seen in refl)

    -- `x` is the newest eligible member of its bucket in `xs`, and has the id `j`.
    pub record IsSample (xs : List RevisionCandidate) (j : ℕ) : Type 0 where
      pub newer : List RevisionCandidate
      pub item : RevisionCandidate
      pub older : List RevisionCandidate
      pub splits : xs ≡ newer ++ item ∷ older
      pub has_id : item.object_id ≡ j
      pub is_eligible : eligible item ≡ true
      pub is_first : taken item newer ≡ false

  module _ (r : Reason) (eligible : RevisionCandidate → Bool) (bucket : RevisionCandidate → K)
      (Q : List Reason → Bool) where
    record IsSampleFrom (seen : List K) (xs : List RevisionCandidate) (j : ℕ) : Type 0 where
      sample : IsSample r eligible bucket xs j
      unseen : is_seen (bucket sample.item) seen ≡ false

    -- The first of the list is not in the bucket of a sample that was unseen after it.
    not_taken_by :
        (seen : List K) (x item : RevisionCandidate)
        → is_seen (bucket item) (next_seen r eligible bucket x seen) ≡ false
        → (eligible x && (bucket item == bucket x) ≡ false) × (is_seen (bucket item) seen ≡ false)
    unfolding is_seen
    not_taken_by seen x item h = ground (arith, e.same_iff (bucket item) (bucket x))

    later_sample :
        (seen : List K) (x : RevisionCandidate) (xs : List RevisionCandidate) (j : ℕ)
        → IsSampleFrom (next_seen r eligible bucket x seen) xs j
        → IsSampleFrom seen (x ∷ xs) j
    later_sample seen x xs j f =
        let free = not_taken_by seen x f.sample.item f.unseen in
        record {
          sample = record {
            newer = x ∷ f.sample.newer;
            item = f.sample.item;
            older = f.sample.older;
            splits = ap (λ l. x ∷ l) f.sample.splits;
            has_id = f.sample.has_id;
            is_eligible = f.sample.is_eligible;
            is_first = ground (arith, free, f.sample.is_first);
          };
          unseen = free.1;
        }

    first_sample :
        (seen : List K) (x : RevisionCandidate) (xs : List RevisionCandidate) (j : ℕ)
        → is_new r eligible bucket x seen ≡ true
        → x.object_id ≡ j
        → IsSampleFrom seen (x ∷ xs) j
    first_sample seen x xs j n i = record {
      sample = record {
        newer = [];
        item = x;
        older = xs;
        splits = refl;
        has_id = i;
        is_eligible = ground arith;
        is_first = refl;
      };
      unseen = ground arith;
    }

    mark_latest-only_from :
        (seen : List K) (xs : List RevisionCandidate) (d : Reasons) (j : ℕ)
        → Q (mark_latest_per_bucket r eligible bucket seen xs d j) ≡ true
        → (Q (d j) ≡ true) ⊎ IsSampleFrom seen xs j
    unfolding mark_latest_per_bucket
    mark_latest-only_from seen [] d j h = inl h
    mark_latest-only_from seen (x ∷ xs) d j h =
        elim (mark_latest-only_from (next_seen r eligible bucket x seen) xs
          (next_reasons r eligible bucket x seen d) j h) [
            | inl k ↦
                elim (append_if-only Q (is_new r eligible bucket x seen) x.object_id j r d k) [
                  | inl old ↦ inl old
                  | inr (n, i) ↦ inr (first_sample seen x xs j n i)
                ]
            | inr f ↦ inr (later_sample seen x xs j f)
          ]

    pub mark_latest-only :
        (xs : List RevisionCandidate) (d : Reasons) (j : ℕ)
        → Q (mark_latest_per_bucket r eligible bucket [] xs d j) ≡ true
        → (Q (d j) ≡ true) ⊎ IsSample r eligible bucket xs j
    mark_latest-only xs d j h = elim (mark_latest-only_from [] xs d j h) [
      | inl old ↦ inl old
      | inr f ↦ inr f.sample
    ]
