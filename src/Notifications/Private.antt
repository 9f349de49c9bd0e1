-- ===== src/Notifications/Private.antt =====
-- Nobody but their user changes notifications.
use socialhub.Prelude.{
  ◌≡◌, refl, sym, ◌∙◌, Bool, true, false, Option, none, some, List, [], ◌∷◌, Bool-cases, inl, inr,
  ◌⊎◌, ◌==◌, ==_iff, ◌&&◌, subst,
}
use socialhub.Schema.{RowId, Millis}
use socialhub.Database.{Table, touch}
use socialhub.Database.Every.{touch-Holds_new, count_every}
use socialhub.Notifications.{
  Notification, is_unread, unread_of, read_by, mark_read, mark_all_read, delete, deleted,
  unread_count,
}

-- What a user asks for.
pub data Request : Type 0 where
  read_one : (id : RowId) (now : Millis) → Request
  read_all : (now : Millis) → Request
  remove : (id : RowId) → Request

and_left : (a b : Bool) → (a && b) ≡ true → a ≡ true
and_left true b h = refl
and_left false b h = cc

module _ (notifications : Table Notification) where
  unfoldable pub served : (user_id : RowId) → notifications.State → Request → notifications.State
  served user_id s (read_one id now) = mark_read notifications id user_id now s
  served user_id s (read_all now) = mark_all_read notifications user_id now s
  served user_id s (remove id) = delete notifications id user_id s

  unfoldable pub served_all :
      (user_id : RowId) → notifications.State → List Request → notifications.State
  served_all user_id s [] = s
  served_all user_id s (r ∷ rs) = served_all user_id (served user_id s r) rs

  -- A notification is kept, or it is the user's.
  abbrev pub KeptOrOwn : RowId → (before after : Option Notification) → Type 0
  KeptOrOwn user_id o t =
      (t ≡ o) ⊎ ((n : Notification) × (o ≡ some n) × ((n.user_id == user_id) ≡ true))

  KeptOrOwn-trans :
      (user_id : RowId) (o t u : Option Notification)
      → KeptOrOwn user_id o t
      → KeptOrOwn user_id t u
      → KeptOrOwn user_id o u
  KeptOrOwn-trans user_id o t u (inl e) (inl f) = inl (f ∙ e)
  KeptOrOwn-trans user_id o t u (inl e) (inr (n, f, q)) = inr (n, sym e ∙ f, q)
  KeptOrOwn-trans user_id o t u (inr h) k = inr h

  touch-KeptOrOwn :
      (user_id : RowId) (now : Millis) (o : Option Notification)
      → KeptOrOwn user_id o (touch (unread_of user_id) (read_by now) o)
  touch-KeptOrOwn user_id now none = inl refl
  touch-KeptOrOwn user_id now (some n) = elim (Bool-cases (unread_of user_id n)) [
    | inl e ↦ inr (n, refl, and_left (n.user_id == user_id) (is_unread n) e)
    | inr e ↦ inl (rw e refl)
  ]

  deleted-KeptOrOwn :
      (id user_id k : RowId) (s : notifications.State) (o : Option Notification)
      → notifications.find s id ≡ o
      → KeptOrOwn user_id
          (notifications.find s k)
          (notifications.find (deleted notifications id user_id s o) k)
  unfolding deleted
  deleted-KeptOrOwn id user_id k s none h = inl refl
  deleted-KeptOrOwn id user_id k s (some n) h = elim (Bool-cases (n.user_id == user_id)) [
    | inl e ↦ elim (Bool-cases (id == k)) [
      | inl d ↦
          let q : id ≡ k = (==_iff id k).0 d in
          inr (n, subst (λ j. notifications.find s j ≡ some n) q h, e)
      | inr d ↦ inl (rw (e, notifications.find-delete s id k, d) refl)
    ]
    | inr e ↦ inl (rw e refl)
  ]

  served-KeptOrOwn :
      (user_id k : RowId) (s : notifications.State) (r : Request)
      → KeptOrOwn user_id (notifications.find s k) (notifications.find (served user_id s r) k)
  unfolding served mark_read mark_all_read delete
  served-KeptOrOwn user_id k s (read_one id now) = elim (Bool-cases (id == k)) [
    | inl e ↦
        rw (notifications.find-update_many, e)
          (touch-KeptOrOwn user_id now (notifications.find s k))
    | inr e ↦ rw (notifications.find-update_many, e) (inl refl)
  ]
  served-KeptOrOwn user_id k s (read_all now) =
      rw (notifications.find-update_all s (unread_of user_id) (read_by now) k)
        (touch-KeptOrOwn user_id now (notifications.find s k))
  served-KeptOrOwn user_id k s (remove id) = deleted-KeptOrOwn id user_id k s _ refl

  -- Whatever a user asks for, in whatever order, the notifications of every other user stay as
  -- they are.
  pub served_all-KeptOrOwn :
      (user_id k : RowId) (s : notifications.State) (rs : List Request)
      → KeptOrOwn user_id (notifications.find s k) (notifications.find (served_all user_id s rs) k)
  unfolding served_all
  served_all-KeptOrOwn user_id k s [] = inl refl
  served_all-KeptOrOwn user_id k s (r ∷ rs) =
      KeptOrOwn-trans user_id _ _ _ (served-KeptOrOwn user_id k s r)
        (served_all-KeptOrOwn user_id k (served user_id s r) rs)

  read_is_not_unread :
      (user_id : RowId) (now : Millis) (n : Notification)
      → unread_of user_id (read_by now n) ≡ false
  read_is_not_unread user_id now n = elim (Bool-cases (n.user_id == user_id)) [
    | inl e ↦ rw e refl
    | inr e ↦ rw e refl
  ]

  -- Nothing is unread once everything has been marked as read.
  pub mark_all_read-unread_count :
      (user_id : RowId) (now : Millis) (s : notifications.State)
      → unread_count notifications user_id (mark_all_read notifications user_id now s) ≡ 0
  unfolding unread_count mark_all_read
  mark_all_read-unread_count user_id now s = count_every notifications _ (unread_of user_id) (λ k.
      rw (notifications.find-update_all s (unread_of user_id) (read_by now) k) (
        touch-Holds_new (λ n. unread_of user_id n ≡ false) (unread_of user_id) (read_by now)
          (notifications.find s k) (λ n. read_is_not_unread user_id now n) (λ n e. e)))
