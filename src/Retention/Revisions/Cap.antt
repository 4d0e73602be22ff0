-- ===== src/Retention/Revisions/Cap.antt =====
-- The hard cap of `_plan_revisions` of services/retention.py.
use netbox_plugin_backup.Prelude.{
  ℕ, zero, suc, ◌+◌, ◌-◌, ◌≤◌, ◌≡◌, refl, ap, inl, inr, Bool, true, false, ◌&&◌, ◌||◌, not, Option,
  none, some, List, [], ◌∷◌, map, min, length, take, keep_if, any_of, count_if, count_if-split,
  length-take, All, All-map, Bool-cases, max, nat_beq, arith, if◌then◌else◌,
}
use netbox_plugin_backup.Retention.{RetentionDecision, count_kept}
use netbox_plugin_backup.Retention.Revisions.{
  is_mandatory_decision, passes_cap, uses_slot, mandatory_ids, over_limit, cap_decisions, apply_cap,
}

abbrev pub contains : ℕ → List ℕ → Bool
contains j ids = any_of (nat_beq j) ids

-- A kept decision that the cap may drop.
abbrev pub is_optional : List ℕ → RetentionDecision → Bool
is_optional mandatory d = d.keep && not (contains d.object_id mandatory)

-- Of the optional decisions exactly the first `remaining` stay kept, unchanged and in order.
pub keep_if-cap_decisions :
    (mandatory : List ℕ) (remaining : ℕ) (ds : List RetentionDecision)
    → keep_if (is_optional mandatory) (cap_decisions mandatory remaining ds)
      ≡ take remaining (keep_if (is_optional mandatory) ds)
unfolding cap_decisions
keep_if-cap_decisions m zero [] = refl
keep_if-cap_decisions m (suc k) [] = refl
keep_if-cap_decisions m zero (d ∷ ds) = ground (arith, keep_if-cap_decisions m zero ds)
keep_if-cap_decisions m (suc k) (d ∷ ds) =
    ground (arith, keep_if-cap_decisions m k ds, keep_if-cap_decisions m (suc k) ds)

if_limit :
    {A : Type 0} (f : RetentionDecision → A)
    → ((d : RetentionDecision) → f (over_limit d) ≡ f d)
    → (b : Bool) (d : RetentionDecision) → f (if b then d else over_limit d) ≡ f d
if_limit f h true d = refl
if_limit f h false d = h d

-- No decision is lost or moved: ids and times stay as they are.
pub map-cap_decisions :
    {A : Type 0} (f : RetentionDecision → A)
    → ((d : RetentionDecision) → f (over_limit d) ≡ f d)
    → (m : List ℕ) (k : ℕ) (ds : List RetentionDecision) → map f (cap_decisions m k ds) ≡ map f ds
unfolding cap_decisions
map-cap_decisions f h m k [] = refl
map-cap_decisions f h m k (d ∷ ds) = cc (
  if_limit f h (passes_cap m d || uses_slot m k d) d,
  map-cap_decisions f h m (if uses_slot m k d then k - 1 else k) ds,
)

spared_if :
    (P : RetentionDecision → Type 0) (m : List ℕ) (d : RetentionDecision) (t : Bool)
    → (t ≡ false → contains d.object_id m ≡ false)
    → (contains d.object_id m ≡ true → P d)
    → contains (if t then d else over_limit d).object_id m ≡ true
    → P (if t then d else over_limit d)
unfolding over_limit
spared_if P m d true free h = h
spared_if P m d false free h = λ c. absurd (cc (free refl))

not_passing :
    (m : List ℕ) (d : RetentionDecision) (b : Bool)
    → (passes_cap m d || b) ≡ false
    → contains d.object_id m ≡ false
not_passing m d b h = ground arith

-- What holds of the mandatory decisions before the cap holds after it.
pub All-cap_decisions :
    (P : RetentionDecision → Type 0) (m : List ℕ) (k : ℕ) (ds : List RetentionDecision)
    → All (λ d. contains d.object_id m ≡ true → P d) ds
    → All (λ d. contains d.object_id m ≡ true → P d) (cap_decisions m k ds)
unfolding cap_decisions
All-cap_decisions P m k [] h = tt
All-cap_decisions P m k (d ∷ ds) h = (
  spared_if P m d (passes_cap m d || uses_slot m k d) (not_passing m d (uses_slot m k d)) h.0,
  All-cap_decisions P m (if uses_slot m k d then k - 1 else k) ds h.1,
)

count_mandatory_kept :
    (m : List ℕ) (k : ℕ) (ds : List RetentionDecision)
    → count_if (λ d. d.keep && contains d.object_id m) (cap_decisions m k ds)
      ≡ count_if (λ d. d.keep && contains d.object_id m) ds
unfolding cap_decisions
count_mandatory_kept m k [] = refl
count_mandatory_kept m zero (d ∷ ds) = ground (arith, count_mandatory_kept m zero ds)
count_mandatory_kept m (suc k) (d ∷ ds) =
    ground (arith, count_mandatory_kept m k ds, count_mandatory_kept m (suc k) ds)

-- The number kept: every kept mandatory decision, and of the others as many as remain.
pub count_kept-cap_decisions :
    (m : List ℕ) (k : ℕ) (ds : List RetentionDecision)
    → count_kept (cap_decisions m k ds)
      ≡ count_if (λ d. d.keep && contains d.object_id m) ds
        + min k (length (keep_if (is_optional m) ds))
unfolding count_kept
count_kept-cap_decisions m k ds =
    let split = count_if-split (λ d. d.keep) (λ d. contains d.object_id m) (cap_decisions m k ds) in
    omega (
      arith,
      split,
      count_mandatory_kept m k ds,
      ap length (keep_if-cap_decisions m k ds),
      length-take k (keep_if (is_optional m) ds),
    )

-- The ids are all different.
abbrev pub IsDistinct : List ℕ → Type 0
IsDistinct [] = Unit
IsDistinct (i ∷ is) = (contains i is ≡ false) × IsDistinct is

-- `ids` without its first `i`.
abbrev erase_id : ℕ → List ℕ → List ℕ
erase_id i [] = []
erase_id i (j ∷ js) = if nat_beq i j then js else j ∷ erase_id i js

length-erase_id :
    (i : ℕ) (js : List ℕ) → contains i js ≡ true → length js ≡ suc (length (erase_id i js))
length-erase_id i [] h = cc
length-erase_id i (j ∷ js) h = ground (arith, length-erase_id i js)

contains-erase_id :
    (i k : ℕ) (js : List ℕ)
    → nat_beq k i ≡ false
    → contains k js ≡ true
    → contains k (erase_id i js) ≡ true
contains-erase_id i k [] n h = cc
contains-erase_id i k (j ∷ js) n h = ground (arith, contains-erase_id i k js n)

erase_id_mono :
    (i : ℕ) (m : List ℕ) (ds : List RetentionDecision)
    → contains i (map (λ d. d.object_id) ds) ≡ false
    → count_if (λ d. contains d.object_id m) ds
      ≤ count_if (λ d. contains d.object_id (erase_id i m)) ds
erase_id_mono i m [] h = omega arith
erase_id_mono i m (d ∷ ds) h =
    ground (arith, contains-erase_id i d.object_id m, erase_id_mono i m ds)

-- Different ids find different places in `m`.
count_contained :
    (ds : List RetentionDecision) (m : List ℕ)
    → IsDistinct (map (λ d. d.object_id) ds)
    → count_if (λ d. contains d.object_id m) ds ≤ length m
count_contained [] m h = omega arith
count_contained (d ∷ ds) m h = elim (Bool-cases (contains d.object_id m)) [
  | inl e ↦ rw e (
      omega (
        arith,
        length-erase_id d.object_id m e,
        erase_id_mono d.object_id m ds h.0,
        count_contained ds (erase_id d.object_id m) h.1,
      ))
  | inr e ↦ rw e (count_contained ds m h.1)
]

count_if-and :
    (p q : RetentionDecision → Bool) (ds : List RetentionDecision)
    → count_if (λ d. p d && q d) ds ≤ count_if q ds
count_if-and p q [] = omega arith
count_if-and p q (d ∷ ds) = ground (arith, count_if-and p q ds)

-- A cap keeps at most that many decisions, or the mandatory ones where these are more.
pub count_kept-apply_cap :
    (n : ℕ) (ds : List RetentionDecision)
    → IsDistinct (map (λ d. d.object_id) ds)
    → count_kept (apply_cap (some (suc n)) ds) ≤ max (suc n) (length (mandatory_ids ds))
unfolding apply_cap
count_kept-apply_cap n ds h =
    let m = mandatory_ids ds in
    omega (
      arith,
      count_kept-cap_decisions m (suc n - length m) ds,
      count_if-and (λ d. d.keep) (λ d. contains d.object_id m) ds,
      count_contained ds m h,
    )

pub mandatory_ids-grow :
    (j : ℕ) (d : RetentionDecision) (ds : List RetentionDecision)
    → contains j (mandatory_ids ds) ≡ true
    → contains j (mandatory_ids (d ∷ ds)) ≡ true
unfolding mandatory_ids
mandatory_ids-grow j d ds h = ground arith

-- The id of every mandatory decision is among the mandatory ids.
pub mandatory_ids-All :
    (ds : List RetentionDecision)
    → All (λ d. is_mandatory_decision d ≡ true → contains d.object_id (mandatory_ids ds) ≡ true) ds
unfolding mandatory_ids
mandatory_ids-All [] = tt
mandatory_ids-All (d ∷ ds) = (
  λ h. ground arith,
  All-map _ _ (λ e f h. mandatory_ids-grow e.object_id d ds (f h)) ds (mandatory_ids-All ds),
)

-- A decision that is to be kept and has a mandatory id is kept, whatever the cap.
pub apply_cap-keeps :
    (cap : Option ℕ) (j : ℕ) (ds : List RetentionDecision)
    → contains j (mandatory_ids ds) ≡ true
    → All (λ d. d.object_id ≡ j → d.keep ≡ true) ds
    → All (λ d. d.object_id ≡ j → d.keep ≡ true) (apply_cap cap ds)
unfolding apply_cap
apply_cap-keeps none j ds c h = h
apply_cap-keeps (some zero) j ds c h = h
apply_cap-keeps (some (suc n)) j ds c h =
    let m = mandatory_ids ds in
    All-map (λ d. contains d.object_id m ≡ true → d.object_id ≡ j → d.keep ≡ true) _
      (λ d k i. k (rw i c) i) (cap_decisions m (suc n - length m) ds)
      (All-cap_decisions (λ d. d.object_id ≡ j → d.keep ≡ true) m (suc n - length m) ds
        (All-map _ _ (λ d k _. k) ds h))

-- The cap changes no id and no time.
pub map-apply_cap :
    {A : Type 0} (f : RetentionDecision → A)
    → ((d : RetentionDecision) → f (over_limit d) ≡ f d)
    → (cap : Option ℕ) (ds : List RetentionDecision) → map f (apply_cap cap ds) ≡ map f ds
unfolding apply_cap
map-apply_cap f h none ds = refl
map-apply_cap f h (some zero) ds = refl
map-apply_cap f h (some (suc n)) ds =
    map-cap_decisions f h (mandatory_ids ds) (suc n - length (mandatory_ids ds)) ds
