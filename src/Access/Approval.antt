-- ===== src/Access/Approval.antt =====
-- backend/src/content/approval.service.ts: the review of designs before they are published.
use socialhub.Prelude.{
  ◌≤◌, ◌≡◌, ◌↔◌, Bool, false, Result, ok, err, ◌==◌, arith, ◌>>=◌, ◌>>◌, require, require_some,
  if◌then◌else◌, List, [], ◌∷◌, ◌||◌,
}
use socialhub.Schema.{RowId, UserRole, ApprovalStatus, approval_eq}
use socialhub.Database.{Table, update}
use socialhub.Access.Roles.{role_rank, role_meets_minimum}

-- VALID_TRANSITIONS
unfoldable pub valid_transitions : ApprovalStatus → List ApprovalStatus
valid_transitions ApprovalStatus.draft = ApprovalStatus.pending_approval ∷ []
valid_transitions ApprovalStatus.pending_approval =
    ApprovalStatus.approved ∷ ApprovalStatus.rejected ∷ ApprovalStatus.draft ∷ []
valid_transitions ApprovalStatus.approved = ApprovalStatus.draft ∷ []
valid_transitions ApprovalStatus.rejected =
    ApprovalStatus.draft ∷ ApprovalStatus.pending_approval ∷ []

-- Array.prototype.includes
abbrev pub includes : List ApprovalStatus → ApprovalStatus → Bool
includes [] target = false
includes (s ∷ rest) target = approval_eq s target || includes rest target

-- The verdicts are the admins' call.
unfoldable pub min_role_for : ApprovalStatus → UserRole
min_role_for target =
    if approval_eq target ApprovalStatus.approved || approval_eq target ApprovalStatus.rejected
    then UserRole.admin
    else UserRole.editor

pub record ContentAsset : Type 0 where
  pub org_id : RowId
  pub created_by_id : RowId
  pub approval_status : ApprovalStatus

pub data ApprovalError : Type 0 where
  asset_not_found : ApprovalError
  cannot_move : ApprovalStatus → ApprovalStatus → ApprovalError
  not_permitted : ApprovalStatus → ApprovalError

-- The rule of the service for one move.
unfoldable pub check_move :
    ApprovalStatus → ApprovalStatus → UserRole → Result ApprovalError (Unit {0})
unfolding valid_transitions min_role_for role_meets_minimum
check_move current target role = do
  require (includes (valid_transitions current) target) (cannot_move current target)
  require (role_meets_minimum role (min_role_for target)) (not_permitted target)

-- The moves of the workflow, each with the least role that may make it.
pub data Move : ApprovalStatus → ApprovalStatus → UserRole → Type 0 where
  submit : Move ApprovalStatus.draft ApprovalStatus.pending_approval UserRole.editor
  approve : Move ApprovalStatus.pending_approval ApprovalStatus.approved UserRole.admin
  reject : Move ApprovalStatus.pending_approval ApprovalStatus.rejected UserRole.admin
  withdraw : Move ApprovalStatus.pending_approval ApprovalStatus.draft UserRole.editor
  reopen : Move ApprovalStatus.approved ApprovalStatus.draft UserRole.editor
  rework : Move ApprovalStatus.rejected ApprovalStatus.draft UserRole.editor
  resubmit : Move ApprovalStatus.rejected ApprovalStatus.pending_approval UserRole.editor

module _ (assets : Table ContentAsset) where
  -- findByIdScoped of content.service.ts: another organization's asset is reported as missing.
  unfoldable pub find_by_id_scoped :
      assets.State → (id org_id : RowId) → Result ApprovalError ContentAsset
  find_by_id_scoped s id org_id = do
    asset ← require_some (assets.find s id) asset_not_found
    require (asset.org_id == org_id) asset_not_found
    ok asset

  unfoldable pub moved :
      assets.State
      → RowId
      → ApprovalStatus
      → Result ApprovalError ContentAsset
      → Result ApprovalError ContentAsset × assets.State
  moved s asset_id target (err e) = (err e, s)
  moved s asset_id target (ok asset) = (
    ok (record asset { approval_status = target }),
    update assets s asset_id (λ a. record a { approval_status = target }),
  )

  -- The asset as it was read, if it may move.
  unfoldable pub check_transition :
      assets.State
      → (org_id asset_id : RowId) → ApprovalStatus
      → UserRole
      → Result ApprovalError ContentAsset
  unfolding find_by_id_scoped
  check_transition s org_id asset_id target role = do
    asset ← find_by_id_scoped s asset_id org_id
    check_move asset.approval_status target role
    ok asset

  unfoldable pub transition :
      (org_id asset_id : RowId)
      → ApprovalStatus
      → UserRole
      → assets.State
      → Result ApprovalError ContentAsset × assets.State
  transition org_id asset_id target role s =
      moved s asset_id target (check_transition s org_id asset_id target role)

check_move_sound :
    (current target : ApprovalStatus) (role : UserRole)
    → check_move current target role ≡ ok tt
    → (least : UserRole) × Move current target least × (role_rank least ≤ role_rank role)
unfolding check_move role_rank
check_move_sound ApprovalStatus.draft ApprovalStatus.pending_approval role h =
    (UserRole.editor, submit, ground arith)
check_move_sound ApprovalStatus.pending_approval ApprovalStatus.approved role h =
    (UserRole.admin, approve, ground arith)
check_move_sound ApprovalStatus.pending_approval ApprovalStatus.rejected role h =
    (UserRole.admin, reject, ground arith)
check_move_sound ApprovalStatus.pending_approval ApprovalStatus.draft role h =
    (UserRole.editor, withdraw, ground arith)
check_move_sound ApprovalStatus.approved ApprovalStatus.draft role h =
    (UserRole.editor, reopen, ground arith)
check_move_sound ApprovalStatus.rejected ApprovalStatus.draft role h =
    (UserRole.editor, rework, ground arith)
check_move_sound ApprovalStatus.rejected ApprovalStatus.pending_approval role h =
    (UserRole.editor, resubmit, ground arith)
check_move_sound _ _ role h = absurd (ground arith)

check_move_complete :
    (current target : ApprovalStatus) (role least : UserRole)
    → Move current target least
    → role_rank least ≤ role_rank role
    → check_move current target role ≡ ok tt
unfolding check_move role_rank
check_move_complete _ _ role _ submit h = ground arith
check_move_complete _ _ role _ approve h = ground arith
check_move_complete _ _ role _ reject h = ground arith
check_move_complete _ _ role _ withdraw h = ground arith
check_move_complete _ _ role _ reopen h = ground arith
check_move_complete _ _ role _ rework h = ground arith
check_move_complete _ _ role _ resubmit h = ground arith

-- The rule for a move accepts it exactly when it is one of the seven moves of the workflow and the
-- actor has at least the role that the move asks for.
pub check_move_iff :
    (current target : ApprovalStatus) (role : UserRole)
    → (check_move current target role ≡ ok tt)
      ↔ ((least : UserRole) × Move current target least × (role_rank least ≤ role_rank role))
check_move_iff current target role = (
  check_move_sound current target role,
  λ (least, move, enough). check_move_complete current target role least move enough,
)
