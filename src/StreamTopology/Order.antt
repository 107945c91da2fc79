-- ===== src/StreamTopology/Order.antt =====
-- Which topics the topology lists (events/topology.py of src/planagent).
use ming_jian.Base.{
  String, ◌≡◌, refl, true, List, [], ◌∷◌, arith, ◌==◌, eq_iff, if◌then◌else◌, Bool-cases, inl, inr,
  ◌⊎◌, sym,
}
use mathlib.Core.Path.{subst}
use ming_jian.StreamTopology.{
  WorkerDescription, elem, update_set, all_topics, insert_text, sort_texts,
}

pub elem-update_set :
    (t : String) (s xs : List String) → elem t s ≡ true → elem t (update_set s xs) ≡ true
unfolding update_set
elem-update_set t s [] h = h
elem-update_set t s (x ∷ xs) h =
    elem-update_set t (if elem x s then s else x ∷ s) xs (ground (arith, eq_iff x t))

elem-added : (x : String) (s : List String) → elem x (if elem x s then s else x ∷ s) ≡ true
elem-added x s = ground (arith, eq_iff x x)

pub elem-update_set_new :
    (t : String) (s xs : List String) → elem t xs ≡ true → elem t (update_set s xs) ≡ true
unfolding update_set
elem-update_set_new t s [] h = cc
elem-update_set_new t s (x ∷ xs) h =
    let s' = if elem x s then s else x ∷ s in
    elim (Bool-cases (x == t)) [
      | inl e ↦
          elem-update_set t s' xs
            (subst (λ y. elem y s' ≡ true) ((eq_iff x t).0 e) (elem-added x s))
      | inr n ↦ elem-update_set_new t s' xs (ground arith)
    ]

pub elem-insert_text :
    (t x : String) (ys : List String)
    → elem t (insert_text x ys) ≡ (if x == t then true else elem t ys)
unfolding insert_text
elem-insert_text t x [] = refl
elem-insert_text t x (y ∷ ys) = ground (arith, elem-insert_text t x ys)

pub elem-sort_texts : (t : String) (xs : List String) → elem t (sort_texts xs) ≡ elem t xs
unfolding sort_texts
elem-sort_texts t [] = refl
elem-sort_texts t (x ∷ xs) =
    ground (arith, elem-insert_text t x (sort_texts xs), elem-sort_texts t xs)

-- The worker is one of those described.
abbrev pub IsIn : WorkerDescription → List WorkerDescription → Type 0
IsIn w [] = ⊥
IsIn w (d ∷ ds) = (d ≡ w) ⊎ IsIn w ds

pub all_topics-keeps :
    (t : String) (ds : List WorkerDescription) (s : List String)
    → elem t s ≡ true
    → elem t (all_topics ds s) ≡ true
unfolding all_topics
all_topics-keeps t [] s h = h
all_topics-keeps t (d ∷ ds) s h =
    all_topics-keeps t ds (update_set (update_set s d.consumes) d.produces)
      (elem-update_set t (update_set s d.consumes) d.produces (elem-update_set t s d.consumes h))

pub all_topics-consumed :
    (t : String) (w : WorkerDescription) (ds : List WorkerDescription) (s : List String)
    → IsIn w ds
    → elem t w.consumes ≡ true
    → elem t (all_topics ds s) ≡ true
unfolding all_topics
all_topics-consumed t w [] s i h = elim i [ ]
all_topics-consumed t w (d ∷ ds) s (inl e) h =
    all_topics-keeps t ds (update_set (update_set s d.consumes) d.produces) (
      elem-update_set t (update_set s d.consumes) d.produces
        (elem-update_set_new t s d.consumes (subst (λ v. elem t v.consumes ≡ true) (sym e) h)))
all_topics-consumed t w (d ∷ ds) s (inr i) h =
    all_topics-consumed t w ds (update_set (update_set s d.consumes) d.produces) i h

pub all_topics-produced :
    (t : String) (w : WorkerDescription) (ds : List WorkerDescription) (s : List String)
    → IsIn w ds
    → elem t w.produces ≡ true
    → elem t (all_topics ds s) ≡ true
unfolding all_topics
all_topics-produced t w [] s i h = elim i [ ]
all_topics-produced t w (d ∷ ds) s (inl e) h =
    all_topics-keeps t ds (update_set (update_set s d.consumes) d.produces) (
      elem-update_set_new t (update_set s d.consumes) d.produces
        (subst (λ v. elem t v.produces ≡ true) (sym e) h))
all_topics-produced t w (d ∷ ds) s (inr i) h =
    all_topics-produced t w ds (update_set (update_set s d.consumes) d.produces) i h
