-- ===== src/Daemon/Manager/Groups.antt =====
-- `groupByOrder` of internal/daemon/manager.go loses no daemon, keeps each with its order, and puts
-- the groups in strictly ascending order.
use mathlib.Core.List.{Perm}
use a_kerno.Common.{
  ◌≡◌, refl, sym, ap, ◌∙◌, Bytes, List, [], ◌∷◌, ◌++◌, true, false, arith, append_assoc, append-nil,
  inl, inr, Bool-cases,
}
use a_kerno.Common.Int.{ℤ, ltb_ℤ, eqb_ℤ, eqb_ℤ_sound}
use a_kerno.Common.Sorting.{sort, IsSorted, sort-perm, sort-IsSorted}
use a_kerno.Common.Assoc.{Assoc}
use a_kerno.Daemon.Types.{Daemon, DaemonConfig}
use a_kerno.Daemon.Manager.{
  Entry, OrderGroup, earlier, later, enabled_entries, add_entry, group_entries, group_by_order,
  running_entries,
}

-- The entries of a group: its names, each with the group's order.
abbrev pub entries_of : ℤ → List Bytes → List Entry
entries_of order [] = []
entries_of order (name ∷ names) = record { name = name; order = order } ∷ entries_of order names

abbrev pub ungroup : List OrderGroup → List Entry
ungroup [] = []
ungroup (g ∷ gs) = entries_of g.order g.names ++ ungroup gs

entries_of-append :
    (order : ℤ) (xs ys : List Bytes)
    → entries_of order (xs ++ ys) ≡ entries_of order xs ++ entries_of order ys
entries_of-append order [] ys = refl
entries_of-append order (x ∷ xs) ys =
    ap (λ t. record { name = x; order = order } ∷ t) (entries_of-append order xs ys)

ungroup-add_entry :
    (gs : List OrderGroup) (e : Entry) → ungroup (add_entry gs e) ≡ ungroup gs ++ e ∷ []
unfolding add_entry
ungroup-add_entry [] e = refl
ungroup-add_entry (g ∷ []) e = elim (Bool-cases (eqb_ℤ g.order e.order)) [
  | inl same ↦ rw same (
      let order : g.order ≡ e.order = eqb_ℤ_sound g.order e.order same in
      let kept = entries_of g.order g.names in
      append-nil (entries_of g.order (g.names ++ e.name ∷ []))
      ∙ entries_of-append g.order g.names (e.name ∷ [])
      ∙ ap (λ o. kept ++ record { name = e.name; order = o } ∷ []) order
      ∙ ap (λ es. es ++ e ∷ []) (sym (append-nil kept)))
  | inr new ↦ rw new (ap (λ es. es ++ e ∷ []) (sym (append-nil (entries_of g.order g.names))))
]
ungroup-add_entry (g ∷ h ∷ gs) e =
    rw (ungroup-add_entry (h ∷ gs) e)
      (sym (append_assoc (entries_of g.order g.names) (ungroup (h ∷ gs)) (e ∷ [])))

ungroup-group_entries :
    (gs : List OrderGroup) (es : List Entry) → ungroup (group_entries gs es) ≡ ungroup gs ++ es
unfolding group_entries
ungroup-group_entries gs [] = sym (append-nil (ungroup gs))
ungroup-group_entries gs (e ∷ es) =
    ungroup-group_entries (add_entry gs e) es
    ∙ rw (ungroup-add_entry gs e) (append_assoc (ungroup gs) (e ∷ []) es)

abbrev pub IsAscending : List OrderGroup → Type 0
IsAscending [] = Unit
IsAscending (g ∷ []) = Unit
IsAscending (g ∷ h ∷ gs) = (ltb_ℤ g.order h.order ≡ true) × IsAscending (h ∷ gs)

earlier_asym : (a b : Entry) → earlier a b ≡ true → earlier b a ≡ false
earlier_asym a b h = ground arith

-- The last group, if there is one, is not later than `e`.
abbrev ReadyFor : List OrderGroup → Entry → Type 0
ReadyFor [] e = Unit
ReadyFor (g ∷ []) e = ltb_ℤ e.order g.order ≡ false
ReadyFor (g ∷ h ∷ gs) e = ReadyFor (h ∷ gs) e

add_entry-IsAscending :
    (gs : List OrderGroup) (e : Entry)
    → IsAscending gs
    → ReadyFor gs e
    → IsAscending (add_entry gs e)
unfolding add_entry
add_entry-IsAscending [] e a r = tt
add_entry-IsAscending (g ∷ []) e a r = ground arith
add_entry-IsAscending (g ∷ h ∷ []) e a r = ground arith
add_entry-IsAscending (g ∷ h ∷ k ∷ gs) e a r = (a.0, add_entry-IsAscending (h ∷ k ∷ gs) e a.1 r)

add_entry-ReadyFor :
    (gs : List OrderGroup) (e e' : Entry) → earlier e' e ≡ false → ReadyFor (add_entry gs e) e'
unfolding add_entry
add_entry-ReadyFor [] e e' h = h
add_entry-ReadyFor (g ∷ []) e e' h = ground arith
add_entry-ReadyFor (g ∷ h ∷ []) e e' le = ground arith
add_entry-ReadyFor (g ∷ h ∷ k ∷ gs) e e' le = add_entry-ReadyFor (h ∷ k ∷ gs) e e' le

abbrev ReadyForFirst : List OrderGroup → List Entry → Type 0
ReadyForFirst gs [] = Unit
ReadyForFirst gs (e ∷ es) = ReadyFor gs e

group_entries-IsAscending :
    (gs : List OrderGroup) (es : List Entry)
    → IsAscending gs
    → ReadyForFirst gs es
    → IsSorted earlier es
    → IsAscending (group_entries gs es)
unfolding group_entries
group_entries-IsAscending gs [] a r s = a
group_entries-IsAscending gs (e ∷ []) a r s = add_entry-IsAscending gs e a r
group_entries-IsAscending gs (e ∷ e' ∷ es) a r s =
    group_entries-IsAscending (add_entry gs e) (e' ∷ es) (add_entry-IsAscending gs e a r)
      (add_entry-ReadyFor gs e e' s.0) s.1

ReadyForFirst-nil : (es : List Entry) → ReadyForFirst [] es
ReadyForFirst-nil [] = tt
ReadyForFirst-nil (e ∷ es) = tt

-- The groups of `groupByOrder` are in strictly ascending order, and their names, each with its
-- group's order, are the enabled daemons with theirs, each as often as it is configured.
pub group_by_order_lem :
    (configs : List DaemonConfig)
    → IsAscending (group_by_order configs)
      × Perm (ungroup (group_by_order configs)) (enabled_entries configs)
unfolding group_by_order
group_by_order_lem configs =
    let es = enabled_entries configs in
    let sorted = sort-IsSorted earlier earlier_asym es in
    (
      group_entries-IsAscending [] (sort earlier es) tt (ReadyForFirst-nil (sort earlier es))
          sorted,
      rw (ungroup-group_entries [] (sort earlier es)) (sort-perm earlier es),
    )

-- The names of the groups are the enabled daemons, in ascending order.
pub ungroup-group_by_order :
    (configs : List DaemonConfig)
    → ungroup (group_by_order configs) ≡ sort earlier (enabled_entries configs)
unfolding group_by_order
ungroup-group_by_order configs = ungroup-group_entries [] (sort earlier (enabled_entries configs))

later_asym : (a b : Entry) → later a b ≡ true → later b a ≡ false
later_asym a b h = ground arith

-- `StopAll` stops the enabled daemons that run, each once, in an order that never ascends.
pub stop_order :
    (daemons : Assoc Daemon)
    → IsSorted later (sort later (running_entries daemons))
      × Perm (sort later (running_entries daemons)) (running_entries daemons)
stop_order daemons = (
  sort-IsSorted later later_asym (running_entries daemons),
  sort-perm later (running_entries daemons),
)
