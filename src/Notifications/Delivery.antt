-- ===== src/Notifications/Delivery.antt =====
-- A notification before and after it is marked as delivered.
use mathlib.Core.Option
use hermes_managed_network.Prelude.{
  ℕ, String, ◌≡◌, refl, sym, ap, ◌∙◌, ◌⊎◌, true, false, Option, none, some, ◌==◌, arith, eq_iff,
  eq_refl, eq→path, inl, inr, Bool-cases, if◌then◌else◌,
}
use hermes_managed_network.Table.{lookup, update}
use hermes_managed_network.Table.Laws.{lookup-update, key-lookup}
use hermes_managed_network.Schema.{Notification, Store, Env, now}
use hermes_managed_network.Notifications.{notification_key, mark_found, mark_notification_delivered}

-- the notification after its delivery at a time
abbrev pub delivered : ℕ → Notification → Notification
delivered at n = record n { status = "delivered"; delivered_at = some at }

under_key :
    (id w : String) (at : ℕ) (o : Option Notification)
    → ((x : Notification) → o ≡ some x → x.notification_id ≡ w)
    → Option.map (λ n. if n.notification_id == id then delivered at n else n) o
      ≡ (if id == w then Option.map (delivered at) o else o)
under_key id w at none under = ground arith
under_key id w at (some n) under =
    ground (arith, under n refl, eq_iff n.notification_id id, eq_iff id w)

lookup-delivered :
    (s : Store) (id w : String) (at : ℕ)
    → lookup notification_key w
        (update (λ n. n.notification_id == id) (delivered at) s.notifications)
      ≡ (if id == w
          then Option.map (delivered at) (lookup notification_key w s.notifications)
          else lookup notification_key w s.notifications)
lookup-delivered s id w at =
    lookup-update notification_key w (λ n. n.notification_id == id) (delivered at) (λ _. refl)
      s.notifications
    ∙ under_key id w at (lookup notification_key w s.notifications)
        (λ x e. key-lookup notification_key w s.notifications x e)

module _ (env : Env) where
  outcome_of :
      (s : Store) (id w : String) (o : Option Notification)
      → lookup notification_key id s.notifications ≡ o
      → ((mark_found env s id o).1 ≡ Option.map (delivered (now env s)) o)
        × (lookup notification_key w (mark_found env s id o).0.notifications ≡ (
            if id == w
            then Option.map (delivered (now env s)) o
            else lookup notification_key w s.notifications))
  unfolding mark_found
  outcome_of s id w none there = (refl, ground (arith, eq_iff id w))
  outcome_of s id w (some n) there = (
    lookup-delivered s id id (now env s) ∙ rw (eq_refl, there),
    lookup-delivered s id w (now env s) ∙ same_row (now env s) (Bool-cases (id == w)),
  )
    where
      same_row :
          (at : ℕ)
          → ((id == w) ≡ true) ⊎ ((id == w) ≡ false)
          → (if id == w
              then Option.map (delivered at) (lookup notification_key w s.notifications)
              else lookup notification_key w s.notifications)
            ≡ (if id == w then some (delivered at n) else lookup notification_key w s.notifications)
      same_row at (inl e) = rw e (
          ap (λ o. Option.map (delivered at) o)
            (ap (λ k. lookup notification_key k s.notifications) (sym (eq→path id w e)) ∙ there))
      same_row at (inr e) = rw e

  -- Marking a notification as delivered returns it as delivered at the time of the call, or nothing if
  -- there is none with that id; under the id the table then holds what is returned, and under every
  -- other id what it held.
  pub mark_notification_delivered_outcome :
      (s : Store) (id w : String)
      → let o = lookup notification_key id s.notifications in
        ((mark_notification_delivered env s id).1 ≡ Option.map (delivered (now env s)) o)
        × (lookup notification_key w (mark_notification_delivered env s id).0.notifications ≡ (
            if id == w
            then Option.map (delivered (now env s)) o
            else lookup notification_key w s.notifications))
  unfolding mark_notification_delivered
  mark_notification_delivered_outcome s id w =
      outcome_of s id w (lookup notification_key id s.notifications) refl
