-- ===== src/Policy/Ambiguity/Closure.antt =====
-- The last loop of `find_ambiguous_events`: what its one pass guarantees between the positions and
-- the ids.
use sesslint.Prelude.{
  ℕ, suc, ◌<◌, ◌≡◌, String, ◌==◌, true, false, some, List, [], ◌∷◌, arith, mem_ℕ, mem_text,
  get_elem?, At, At-get_elem?, inl, inr, eq_refl,
}
use sesslint.Session.{SessionEvent, Host}
use sesslint.Finding.{Finding}
use sesslint.Policy.Ambiguity.Entries.{Marks}
use sesslint.Policy.Ambiguity.Find.{complete, complete_at, initial_marks, find_ambiguous_events}

complete_at-indices :
    (i j : ℕ) (s : String) (m : Marks)
    → mem_ℕ j m.indices ≡ true
    → mem_ℕ j (complete_at i s m).indices ≡ true
complete_at-indices i j s m h = ground arith

complete_at-ids :
    (i : ℕ) (s t : String) (m : Marks)
    → mem_text t m.ids ≡ true
    → mem_text t (complete_at i s m).ids ≡ true
complete_at-ids i s t m h = ground arith

pub complete-indices :
    (i j : ℕ) (evs : List SessionEvent) (m : Marks)
    → mem_ℕ j m.indices ≡ true
    → mem_ℕ j (complete i evs m).indices ≡ true
unfolding complete
complete-indices i j [] m h = h
complete-indices i j (ev ∷ evs) m h =
    complete-indices (suc i) j evs (complete_at i ev.id m) (complete_at-indices i j ev.id m h)

pub complete-ids :
    (i : ℕ) (t : String) (evs : List SessionEvent) (m : Marks)
    → mem_text t m.ids ≡ true
    → mem_text t (complete i evs m).ids ≡ true
unfolding complete
complete-ids i t [] m h = h
complete-ids i t (ev ∷ evs) m h =
    complete-ids (suc i) t evs (complete_at i ev.id m) (complete_at-ids i ev.id t m h)

-- The pass adds no position that it has left behind.
complete-behind :
    (i j : ℕ) (evs : List SessionEvent) (m : Marks)
    → j < i
    → mem_ℕ j (complete i evs m).indices ≡ true
    → mem_ℕ j m.indices ≡ true
unfolding complete
complete-behind i j [] m l h = h
complete-behind i j (ev ∷ evs) m l h =
    let before = complete-behind (suc i) j evs (complete_at i ev.id m) (omega arith) h in
    ground arith

complete_at-both :
    (i : ℕ) (s : String) (m : Marks)
    → (s == "") ≡ false
    → mem_ℕ i (complete_at i s m).indices ≡ true
    → mem_text s (complete_at i s m).ids ≡ true
complete_at-both i s m e h = ground (arith, eq_refl s)

ids_of_indices :
    (i j : ℕ) (evs : List SessionEvent) (m : Marks) (ev : SessionEvent)
    → At i evs j ev
    → (ev.id == "") ≡ false
    → mem_ℕ j (complete i evs m).indices ≡ true
    → mem_text ev.id (complete i evs m).ids ≡ true
unfolding complete
ids_of_indices i j [] m ev at e h = elim at [ ]
ids_of_indices i j (x ∷ evs) m ev (inl (p, q)) e h =
    complete-ids (suc i) ev.id evs (complete_at i x.id m) (
      rw (← q) (
        complete_at-both i x.id m (rw q e)
          (complete-behind (suc i) i evs (complete_at i x.id m) (omega arith) (rw (← p) at h))))
ids_of_indices i j (x ∷ evs) m ev (inr at) e h =
    ids_of_indices (suc i) j evs (complete_at i x.id m) ev at e h

complete_at-index :
    (i : ℕ) (s : String) (m : Marks)
    → (s == "") ≡ false
    → mem_text s m.ids ≡ true
    → mem_ℕ i (complete_at i s m).indices ≡ true
complete_at-index i s m e h = ground arith

indices_of_ids :
    (i j : ℕ) (evs : List SessionEvent) (m : Marks) (ev : SessionEvent)
    → At i evs j ev
    → (ev.id == "") ≡ false
    → mem_text ev.id m.ids ≡ true
    → mem_ℕ j (complete i evs m).indices ≡ true
unfolding complete
indices_of_ids i j [] m ev at e h = elim at [ ]
indices_of_ids i j (x ∷ evs) m ev (inl (p, q)) e h =
    complete-indices (suc i) j evs (complete_at i x.id m)
      (rw (← p) (complete_at-index i x.id m (rw q e) (rw q h)))
indices_of_ids i j (x ∷ evs) m ev (inr at) e h =
    indices_of_ids (suc i) j evs (complete_at i x.id m) ev at e (complete_at-ids i x.id ev.id m h)

-- For an event with a non-empty id: if its position is ambiguous then so is its id, and if its id
-- was marked before the last loop then its position is ambiguous.
pub ambiguous_ids_of_indices :
    (host : Host) (evs : List SessionEvent) (fs : List Finding) (j : ℕ) (ev : SessionEvent)
    → get_elem? evs j ≡ some ev
    → (ev.id == "") ≡ false
    → (mem_ℕ j (find_ambiguous_events host evs fs).indices ≡ true
        → mem_text ev.id (find_ambiguous_events host evs fs).ids ≡ true)
      × (mem_text ev.id (initial_marks host evs fs).ids ≡ true
          → mem_ℕ j (find_ambiguous_events host evs fs).indices ≡ true)
unfolding find_ambiguous_events
ambiguous_ids_of_indices host evs fs j ev at e =
    let m = initial_marks host evs fs in
    let here = At-get_elem? evs j ev at in
    (ids_of_indices 0 j evs m ev here e, indices_of_ids 0 j evs m ev here e)
