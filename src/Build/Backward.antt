-- ===== src/Build/Backward.antt =====
-- Lists of invocations in which every upstream name belongs to an earlier one.
use auto_workflow.Base.{List, [], ◌∷◌, ◌++◌, map, Str, Subset, append-nil, append_assoc}
use auto_workflow.Build.{TaskInvocation}

-- `[inv.name for inv in invs]`
abbrev pub inv_names : List TaskInvocation → List Str
inv_names = map (λ inv. inv.name)

-- `seen` are the names in front.
unfoldable pub Backward : List Str → List TaskInvocation → Type 0
Backward seen [] = Unit
Backward seen (inv ∷ invs) = Subset inv.upstream seen × Backward (seen ++ inv.name ∷ []) invs

pub Backward-snoc :
    (seen : List Str) (invs : List TaskInvocation) (inv : TaskInvocation)
    → Backward seen invs
    → Subset inv.upstream (seen ++ inv_names invs)
    → Backward seen (invs ++ inv ∷ [])
unfolding Backward
Backward-snoc seen [] inv b h = (λ u m. rw (append-nil seen) at (h u m), tt)
Backward-snoc seen (i ∷ invs) inv b h = (
  b.0,
  Backward-snoc (seen ++ i.name ∷ []) invs inv b.1
      (λ u m. rw (append_assoc seen (i.name ∷ []) (inv_names invs)) (h u m)),
)
