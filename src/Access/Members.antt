-- ===== src/Access/Members.antt =====
-- backend/src/organizations/members/members.service.ts: changing a member's role.
use socialhub.Prelude.{
  ◌≤◌, String, ◌≡◌, ◌↔◌, refl, true, false, some, Result, ok, err, ◌==◌, arith, not, ◌>>=◌, ◌>>◌,
  require, require_some, if◌then◌else◌, Bool-cases, inl, inr, ◌≢◌, ◌⊎◌, ==_iff,
}
use socialhub.Schema.{RowId, UserRole, role_eq}
use socialhub.Database.{Table, update}
use socialhub.Access.Roles.{role_rank, role_meets_minimum}

pub record User : Type 0 where
  pub email : String
  pub org_id : RowId
  pub role : UserRole

pub data MemberError : Type 0 where
  own_role owner_not_assignable member_not_found owner_fixed outranked above_own_rank : MemberError

pub record Actor : Type 0 where
  pub user_id : RowId
  pub role : UserRole

module _ (users : Table User) where
  -- The checks, in the order of the code; the target as it was read.
  unfoldable pub check_change :
      users.State → (org_id target_id : RowId) → UserRole → Actor → Result MemberError User
  unfolding role_meets_minimum role_rank
  check_change s org_id target_id new_role actor = do
    require (not (target_id == actor.user_id)) own_role
    require (not (role_eq new_role UserRole.owner)) owner_not_assignable
    target ← require_some (users.find s target_id) member_not_found
    require (target.org_id == org_id) member_not_found
    require (not (role_eq target.role UserRole.owner)) owner_fixed
    require (role_meets_minimum actor.role target.role) outranked
    require (role_meets_minimum actor.role new_role) above_own_rank
    ok target

  unfoldable pub changed :
      users.State
      → RowId
      → UserRole
      → Result MemberError User
      → Result MemberError User × users.State
  changed s target_id new_role (err e) = (err e, s)
  changed s target_id new_role (ok target) = (
    ok (record target { role = new_role }),
    update users s target_id (λ u. record u { role = new_role }),
  )

  unfoldable pub change_role :
      (org_id target_id : RowId)
      → UserRole
      → Actor
      → users.State
      → Result MemberError User × users.State
  change_role org_id target_id new_role actor s =
      changed s target_id new_role (check_change s org_id target_id new_role actor)

  -- The change that the hierarchy allows.
  pub record IsAllowed (s : users.State) (org_id target_id : RowId) (new_role : UserRole)
      (actor : Actor) (target : User) : Type 0 where
    pub stored : users.find s target_id ≡ some target
    pub same_org : target.org_id ≡ org_id
    pub not_self : (target_id == actor.user_id) ≡ false
    pub from_below_owner : target.role ≢ UserRole.owner
    pub to_below_owner : new_role ≢ UserRole.owner
    pub within_old : role_rank target.role ≤ role_rank actor.role
    pub within_new : role_rank new_role ≤ role_rank actor.role

  IsAllowed-sound :
      (s : users.State) (org_id target_id : RowId) (new_role : UserRole) (actor : Actor)
      (target : User)
      → check_change s org_id target_id new_role actor ≡ ok target
      → IsAllowed s org_id target_id new_role actor target
  unfolding check_change
  IsAllowed-sound s org_id target_id new_role actor target h = ground arith

  IsAllowed-complete :
      (s : users.State) (org_id target_id : RowId) (new_role : UserRole) (actor : Actor)
      (target : User)
      → IsAllowed s org_id target_id new_role actor target
      → check_change s org_id target_id new_role actor ≡ ok target
  unfolding check_change
  IsAllowed-complete s org_id target_id new_role actor target h = ground arith

  -- The checks of a role change pass exactly when the target is a stored member of the same organization
  -- other than the actor, neither the old nor the new role is `owner`, and neither is above the
  -- actor's own.
  pub change_role_iff :
      (s : users.State) (org_id target_id : RowId) (new_role : UserRole) (actor : Actor)
      (target : User)
      → (check_change s org_id target_id new_role actor ≡ ok target)
        ↔ IsAllowed s org_id target_id new_role actor target
  change_role_iff s org_id target_id new_role actor target = (
    IsAllowed-sound s org_id target_id new_role actor target,
    IsAllowed-complete s org_id target_id new_role actor target,
  )

  -- What a role change returns and leaves: an error and the table as it was, or the member with
  -- the new role, written to that row alone.
  abbrev pub Changes :
      users.State
      → (org_id target_id : RowId) → UserRole
      → Actor
      → Result MemberError User × users.State
      → Type 0
  Changes s org_id target_id new_role actor (err e, after) = after ≡ s
  Changes s org_id target_id new_role actor (ok member, after) =
      (old : User) × IsAllowed s org_id target_id new_role actor old
      × (member ≡ record old { role = new_role })
      × ((id : RowId)
          → users.find after id ≡ (if target_id == id then some member else users.find s id))

  changed-Changes :
      (s : users.State) (org_id target_id : RowId) (new_role : UserRole) (actor : Actor)
      (checked : Result MemberError User)
      → check_change s org_id target_id new_role actor ≡ checked
      → Changes s org_id target_id new_role actor (changed s target_id new_role checked)
  unfolding changed
  changed-Changes s org_id target_id new_role actor (err e) h = refl
  changed-Changes s org_id target_id new_role actor (ok old) h =
      let allowed = IsAllowed-sound s org_id target_id new_role actor old h in
      (old, allowed, refl, λ id. written id (Bool-cases (target_id == id)) allowed.stored)
    where
      written :
          (id : RowId)
          → ((target_id == id) ≡ true) ⊎ ((target_id == id) ≡ false)
          → users.find s target_id ≡ some old
          → users.find (update users s target_id (λ u. record u { role = new_role })) id
            ≡ (if target_id == id then some (record old { role = new_role }) else users.find s id)
      written id (inl e) stored =
          rw (users.find-update_many, e, ← (==_iff target_id id).0 e, stored) refl
      written id (inr e) stored = rw (users.find-update_many, e) refl

  -- A role change, on every branch: if it is refused, nothing changes; if it succeeds, it was
  -- allowed by the hierarchy, and it writes the new role to the target and to no other user. So no
  -- owner is made or unmade, and nobody acts on someone above them.
  pub change_role-Changes :
      (s : users.State) (org_id target_id : RowId) (new_role : UserRole) (actor : Actor)
      → Changes s org_id target_id new_role actor (change_role org_id target_id new_role actor s)
  unfolding change_role
  change_role-Changes s org_id target_id new_role actor =
      changed-Changes s org_id target_id new_role actor _ refl
