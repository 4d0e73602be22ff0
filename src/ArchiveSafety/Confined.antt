-- ===== src/ArchiveSafety/Confined.antt =====
-- Proofs on netbox_config_backup/drivers/archive_safety.py: the names that pass the check of a path.
use netbox_plugin_backup.Prelude.{
  ℕ, zero, suc, ◌≡◌, ◌≢◌, refl, sym, ap, subst, ◌∙◌, Bool, true, false, ◌||◌, ◌⊎◌, List, [], ◌∷◌,
  map, length, nat_eq, list_eq, key_ne, list_beq_iff, nat_beq, ◌==◌, Text, codes, split-nil,
  split-cons, split, extend, if◌then◌else◌, Bool-cases, inl, inr, arith,
}
use netbox_plugin_backup.ArchiveSafety.{
  Entry, Segment, here, up, down, segment_of, with_slashes, segments_of, is_absolute, norm_step,
  normalize, first_of, is_up, is_unsafe,
}

-- The parts of a name between slashes and backslashes.
pub pieces : Text → List Text
pieces [] = [] ∷ []
pieces (c ∷ name) =
    let rest = pieces name in if nat_beq c 47 || nat_beq c 92 then [] ∷ rest else extend c rest

-- A walk along the parts, `depth` directories below the start, that never goes above it.
pub data Walk : ℕ → List Text → Type 0 where
  done : (depth : ℕ) → Walk depth []
  stay :
      (depth : ℕ) (part : Text) (rest : List Text)
      → (part ≡ []) ⊎ (part ≡ codes ".")
      → Walk depth rest
      → Walk depth (part ∷ rest)
  leave : (depth : ℕ) (rest : List Text) → Walk depth rest → Walk (suc depth) (codes ".." ∷ rest)
  enter :
      (depth : ℕ) (part : Text) (rest : List Text)
      → (part ≢ []) × (part ≢ codes ".") × (part ≢ codes "..")
      → Walk (suc depth) rest
      → Walk depth (part ∷ rest)

-- The name starts with no slash and no backslash.
pub IsRelative : Text → Type 0
IsRelative [] = ⊥
IsRelative (c ∷ name) = (c ≢ 47) × (c ≢ 92)

-- A name that may be unpacked: it is relative, and its walk never leaves the directory.
pub IsConfined : Text → Type 0
IsConfined name = IsRelative name × Walk 0 (pieces name)

-- A walk along the segments, `depth` directories below the start, that never goes above it.
Stays : ℕ → List Segment → Type 0
Stays depth [] = Unit
Stays depth (here ∷ segments) = Stays depth segments
Stays depth (down part ∷ segments) = Stays (suc depth) segments
Stays zero (up ∷ segments) = ⊥
Stays (suc depth) (up ∷ segments) = Stays depth segments

-- Two dots at the front stay there.
norm_step-up :
    (s : Segment) (stack : List Segment)
    → is_up (first_of stack) ≡ true
    → is_up (first_of (norm_step false s stack)) ≡ true
unfolding first_of
norm_step-up here stack h = h
norm_step-up (down part) [] h = cc
norm_step-up (down part) (t ∷ stack) h = h
norm_step-up up [] h = cc
norm_step-up up (up ∷ stack) h = h
norm_step-up up (here ∷ []) h = cc
norm_step-up up (here ∷ t ∷ stack) h = h
norm_step-up up (down part ∷ []) h = cc
norm_step-up up (down part ∷ t ∷ stack) h = h

normalize-up :
    (segments stack : List Segment)
    → is_up (first_of stack) ≡ true
    → is_up (first_of (normalize false segments stack)) ≡ true
unfolding normalize
normalize-up [] stack h = h
normalize-up (s ∷ segments) stack h =
    normalize-up segments (norm_step false s stack) (norm_step-up s stack h)

up_first : is_up (first_of (up ∷ [])) ≡ true
unfolding first_of
up_first = refl

both : {b : Bool} → b ≡ true → b ≡ false → ⊥
both h k = absurd (cc)

-- A normalized relative path that does not start with two dots belongs to a walk that stays.
normalize-Stays :
    (segments : List Segment) (names : List Text)
    → is_up (first_of (normalize false segments (map down names))) ≡ false
    → Stays (length names) segments
unfolding normalize Stays
normalize-Stays [] names h = tt
normalize-Stays (here ∷ segments) names h = normalize-Stays segments names h
normalize-Stays (down part ∷ segments) names h = normalize-Stays segments (part ∷ names) h
normalize-Stays (up ∷ segments) [] h = absurd (both (normalize-up segments (up ∷ []) up_first) h)
normalize-Stays (up ∷ segments) (n ∷ names) h = normalize-Stays segments names h

pieces-split : (name : Text) → split 47 (with_slashes name) ≡ pieces name
unfolding pieces
pieces-split [] = split-nil 47
pieces-split (c ∷ name) = elim (Bool-cases (nat_beq c 92)) [
  | inl e ↦ simp e (split-cons 47 47 (with_slashes name) ∙ rw (pieces-split name) (ground arith))
  | inr e ↦ simp e (split-cons 47 c (with_slashes name) ∙ rw (pieces-split name) (ground arith))
]

up_Walk :
    (depth : ℕ) (part : Text) (rest : List Text) (segments : List Segment)
    → part ≡ codes ".."
    → Stays depth (up ∷ segments)
    → ((d : ℕ) → Stays d segments → Walk d rest)
    → Walk depth (part ∷ rest)
unfolding Stays
up_Walk zero part rest segments e h k = elim h [ ]
up_Walk (suc depth) part rest segments e h k =
    subst (λ x. Walk (suc depth) (x ∷ rest)) (sym e) (Walk.leave depth rest (k depth h))

-- What one part of the name contributes.
part_Walk :
    (depth : ℕ) (part : Text) (rest : List Text) (segments : List Segment)
    → Stays depth (segment_of part ∷ segments)
    → ((d : ℕ) → Stays d segments → Walk d rest)
    → Walk depth (part ∷ rest)
unfolding Stays
part_Walk depth part rest segments h k = elim (Bool-cases (part == [])) [
  | inl e ↦ Walk.stay depth part rest (inl ((list_beq_iff part []).0 e)) (k depth (rw e at h))
  | inr a ↦ elim (Bool-cases (part == codes ".")) [
    | inl e ↦
        Walk.stay depth part rest (inr ((list_beq_iff part (codes ".")).0 e))
          (k depth (rw (a, e) at h))
    | inr b ↦ elim (Bool-cases (part == codes "..")) [
      | inl e ↦
          up_Walk depth part rest segments ((list_beq_iff part (codes "..")).0 e)
            (rw (a, b, e) at h) k
      | inr c ↦
          Walk.enter depth part rest
            (key_ne part [] a, key_ne part (codes ".") b, key_ne part (codes "..") c)
            (k (suc depth) (rw (a, b, c) at h))
    ]
  ]
]

Stays-Walk : (depth : ℕ) (parts : List Text) → Stays depth (map segment_of parts) → Walk depth parts
Stays-Walk depth [] h = Walk.done depth
Stays-Walk depth (part ∷ parts) h =
    part_Walk depth part parts (map segment_of parts) h (λ d s. Stays-Walk d parts s)

absolute-IsRelative :
    (name : Text) → (name == []) ≡ false → is_absolute name ≡ false → IsRelative name
unfolding IsRelative
absolute-IsRelative [] h k = cc
absolute-IsRelative (c ∷ name) h k = (key_ne c 47 (ground arith), key_ne c 92 (ground arith))

-- A name that is not refused is confined.
pub safe-IsConfined : (e : Entry) → is_unsafe e ≡ false → IsConfined e.name
unfolding is_unsafe IsConfined
safe-IsConfined e h =
    let relative : is_absolute e.name ≡ false = ground arith in
    let inside : is_up (first_of (normalize false (segments_of e.name) [])) ≡ false =
      ap (λ b. is_up (first_of (normalize b (segments_of e.name) []))) (sym relative)
      ∙ ground arith in
    (
      absolute-IsRelative e.name (ground arith) relative,
      subst (Walk 0) (pieces-split e.name) (
          Stays-Walk 0 (split 47 (with_slashes e.name))
            (normalize-Stays (segments_of e.name) [] inside)),
    )
