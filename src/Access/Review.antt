-- ===== src/Access/Review.antt =====
-- What the review workflow guarantees of a design, over any sequence of requests.
use socialhub.Prelude.{
  ◌≤◌, ◌≡◌, ◌⊎◌, refl, Bool, true, false, Option, none, some, Result, ok, err, ◌==◌, arith,
  if◌then◌else◌, Bool-cases, inl, inr, List, [], ◌∷◌, ◌||◌, ◌&&◌, ==_iff, le→leb, subst,
}
use socialhub.Schema.{RowId, UserRole, ApprovalStatus, approval_eq}
use socialhub.Database.{Table, update}
use socialhub.Access.Roles.{role_rank, role_meets_minimum}
use socialhub.Access.Approval.{
  ContentAsset, ApprovalError, Move, check_move, moved, check_transition, transition,
  check_move_iff,
}

pub record Request : Type 0 where
  pub org_id : RowId
  pub asset_id : RowId
  pub target : ApprovalStatus
  pub role : UserRole

abbrev pub is_approved : Option ContentAsset → Bool
is_approved none = false
is_approved (some a) = approval_eq a.approval_status ApprovalStatus.approved

-- A request by an admin or the owner to approve the design `id`.
abbrev pub is_verdict : RowId → Request → Bool
is_verdict id r =
    (r.asset_id == id)
    && (approval_eq r.target ApprovalStatus.approved && role_meets_minimum r.role UserRole.admin)

abbrev pub any_verdict : RowId → List Request → Bool
any_verdict id [] = false
any_verdict id (r ∷ rest) = is_verdict id r || any_verdict id rest

module _ (assets : Table ContentAsset) where
  -- What a request leaves: an error and the table as it was, or a move of the workflow, written to
  -- that asset alone.
  abbrev pub Moves :
      assets.State
      → (org_id asset_id : RowId) → ApprovalStatus
      → UserRole
      → Result ApprovalError ContentAsset × assets.State
      → Type 0
  Moves s org_id asset_id target role (err e, after) = after ≡ s
  Moves s org_id asset_id target role (ok asset, after) =
      (old : ContentAsset) × (assets.find s asset_id ≡ some old)
      × (old.org_id ≡ org_id)
      × ((least : UserRole) × Move old.approval_status target least
          × (role_rank least ≤ role_rank role))
      × (asset ≡ record old { approval_status = target })
      × ((id : RowId)
          → assets.find after id ≡ (if asset_id == id then some asset else assets.find s id))

  read_back :
      (s : assets.State) (org_id asset_id : RowId) (target : ApprovalStatus) (role : UserRole)
      (old : ContentAsset)
      → check_transition assets s org_id asset_id target role ≡ ok old
      → (assets.find s asset_id ≡ some old)
        × (old.org_id ≡ org_id)
        × (check_move old.approval_status target role ≡ ok tt)
  unfolding check_transition
  read_back s org_id asset_id target role old h = (ground arith, ground arith, ground arith)

  moved-Moves :
      (s : assets.State) (org_id asset_id : RowId) (target : ApprovalStatus) (role : UserRole)
      (checked : Result ApprovalError ContentAsset)
      → check_transition assets s org_id asset_id target role ≡ checked
      → Moves s org_id asset_id target role (moved assets s asset_id target checked)
  unfolding moved
  moved-Moves s org_id asset_id target role (err e) h = refl
  moved-Moves s org_id asset_id target role (ok old) h =
      let (stored, owned, fits) = read_back s org_id asset_id target role old h in
      (
        old,
        stored,
        owned,
        (check_move_iff old.approval_status target role).0 fits,
        refl,
        λ id. written id (Bool-cases (asset_id == id)) stored,
      )
    where
      written :
          (id : RowId)
          → ((asset_id == id) ≡ true) ⊎ ((asset_id == id) ≡ false)
          → assets.find s asset_id ≡ some old
          → assets.find (update assets s asset_id (λ a. record a { approval_status = target })) id
            ≡ (if asset_id == id
                then some (record old { approval_status = target })
                else assets.find s id)
      written id (inl e) stored =
          rw (assets.find-update_many, e, ← (==_iff asset_id id).0 e, stored) refl
      written id (inr e) stored = rw (assets.find-update_many, e) refl

  -- A request to move a design, on every branch: if it is refused, nothing changes; if it
  -- succeeds, the design is the caller's organization's, the move is one of the workflow, the
  -- actor has the role for it, and the new status is written to that design alone.
  pub transition-Moves :
      (s : assets.State) (org_id asset_id : RowId) (target : ApprovalStatus) (role : UserRole)
      → Moves s org_id asset_id target role (transition assets org_id asset_id target role s)
  unfolding transition
  transition-Moves s org_id asset_id target role = moved-Moves s org_id asset_id target role _ refl

  unfoldable pub serve : List Request → assets.State → assets.State
  serve [] s = s
  serve (r ∷ rest) s = serve rest (transition assets r.org_id r.asset_id r.target r.role s).1

approving_role :
    {current target : ApprovalStatus} {least : UserRole}
    → Move current target least
    → approval_eq target ApprovalStatus.approved ≡ true
    → least ≡ UserRole.admin
approving_role Move.submit h = ground arith
approving_role Move.approve h = refl
approving_role Move.reject h = ground arith
approving_role Move.withdraw h = ground arith
approving_role Move.reopen h = ground arith
approving_role Move.rework h = ground arith
approving_role Move.resubmit h = ground arith

module _ (assets : Table ContentAsset) (id : RowId) (s : assets.State) where
  verdict_of_Moves :
      (r : Request) (out : Result ApprovalError ContentAsset × assets.State)
      → Moves assets s r.org_id r.asset_id r.target r.role out
      → is_approved (assets.find out.1 id) ≡ true
      → (is_approved (assets.find s id) ≡ true) ⊎ (is_verdict id r ≡ true)
  verdict_of_Moves r (err e, after) same h = inl (rw same at h)
  verdict_of_Moves r (ok asset, after) (old, stored, owned, (least, move, enough), is, frame) h =
      elim (Bool-cases (r.asset_id == id)) [
        | inl e ↦ inr (verdict e (rw (frame id, e, is) at h))
        | inr e ↦ inl (rw (frame id, e) at h)
      ]
    where
      verdict :
          (r.asset_id == id) ≡ true
          → approval_eq r.target ApprovalStatus.approved ≡ true
          → is_verdict id r ≡ true
      verdict e approved =
          let as_admin = approving_role move approved in
          rw (e, approved)
            (unfold role_meets_minimum in
              le→leb _ _ (subst (λ l. role_rank l ≤ role_rank r.role) as_admin enough))

module _ (assets : Table ContentAsset) (id : RowId) where
  -- Whatever requests are made, by anyone, in any order: a design that ends up approved was so
  -- from the start, or an admin or the owner asked to approve it.
  pub approved_by_admin :
      (requests : List Request) (s : assets.State)
      → is_approved (assets.find (serve assets requests s) id) ≡ true
      → (is_approved (assets.find s id) ≡ true) ⊎ (any_verdict id requests ≡ true)
  unfolding serve
  approved_by_admin [] s h = inl h
  approved_by_admin (r ∷ rest) s h =
      elim (approved_by_admin rest (transition assets r.org_id r.asset_id r.target r.role s).1 h) [
        | inl before ↦
            elim (verdict_of_Moves assets id s r _
              (transition-Moves assets s r.org_id r.asset_id r.target r.role) before) [
                | inl start ↦ inl start
                | inr verdict ↦ inr (rw verdict refl)
              ]
        | inr later ↦ inr (ground (arith, later))
      ]
