-- ===== src/Notifications/Merged.antt =====
-- apps/notifications/utils.py: the rows after `update_or_create_notification_for_recipient`.
use projects_backend.Base.{
  if◌then◌else◌, ==_iff, some-injective, none-ne-some, filter, filter-not_self, filter_twice,
  head-filter, ℕ, ◌+◌, ◌≡◌, refl, sym, ap, subst, ◌∙◌, Bool, true, false, not, Option, none, some,
  List, [], ◌∷◌, arith,
}
use projects_backend.Notifications.{
  merged_context, merge_into, update_or_create_notification_for_recipient,
}
use projects_backend.Notifications.{same_option, same_bool, will_send, finish_update}
use projects_backend.Notifications.{
  NotificationContext, Notification, Manager, matches, new_notification, with_defaults, counted,
}

same_option_refl : (o : Option ℕ) → same_option o o ≡ true
same_option_refl none = refl
same_option_refl (some a) = (==_iff a a).1 refl

same_bool_refl : (b : Bool) → same_bool b b ≡ true
same_bool_refl true = refl
same_bool_refl false = refl

new-matches : (m : Manager) (u : ℕ) → matches m u (new_notification m u) ≡ true
unfolding matches new_notification
new-matches m u = ground (
  arith,
  same_option_refl m.sender,
  same_option_refl m.project,
  same_option_refl m.organization,
  same_bool_refl (will_send m u),
)

with_defaults-matches :
    (m : Manager) (u : ℕ) (n : Notification)
    → matches m u n ≡ true
    → matches m u (with_defaults m n) ≡ true
unfolding matches with_defaults
with_defaults-matches m u n h = ground arith

counted-matches :
    (m : Manager) (u : ℕ) (n : Notification) (c : NotificationContext)
    → matches m u n ≡ true
    → matches m u (counted m n c) ≡ true
unfolding matches counted
counted-matches m u n c h = h

-- the count after a notification that found some rows, the last saved first
abbrev next_count : List Notification → ℕ
next_count [] = 1
next_count (n ∷ older) = n.count + 1

module _ (m : Manager) (u : ℕ) where
  abbrev others : List Notification → List Notification
  others = filter (λ n. not (matches m u n))

  -- What the rows are after the call: one matches, and the others are as before.
  abbrev pub OneMatches : List Notification → Option Notification × List Notification → Type 0
  OneMatches rows r =
      (n : Notification) × (filter (matches m u) r.1 ≡ n ∷ [])
      × (others r.1 ≡ others rows)
      × ((k : Notification)
          → r.0 ≡ some k
          → (k ≡ n) × (k.count ≡ next_count (filter (matches m u) rows)))

  one_of :
      (n : Notification) (rows : List Notification)
      → matches m u n ≡ true
      → (filter (matches m u) (n ∷ others rows) ≡ n ∷ []) × (others (n ∷ others rows) ≡ others rows)
  one_of n rows h = (
    rw h (ap (λ z. n ∷ z) (filter-not_self (matches m u) rows)),
    rw h (filter_twice (λ x. not (matches m u x)) rows),
  )

  finished :
      (n : Notification) (o : Option NotificationContext) (older rows : List Notification)
      → filter (matches m u) rows ≡ n ∷ older
      → matches m u n ≡ true
      → OneMatches rows (finish_update m (with_defaults m n) o (others rows))
  unfolding counted with_defaults
  finished n none older rows e h =
      let (a, b) = one_of (with_defaults m n) rows (with_defaults-matches m u n h) in
      (with_defaults m n, a, b, λ k r. absurd (none-ne-some k r))
  finished n (some c) older rows e h =
      let n' = counted m (with_defaults m n) c in
      let (a, b) =
        one_of n' rows
          (counted-matches m u (with_defaults m n) c (with_defaults-matches m u n h)) in
      (
        n',
        a,
        b,
        λ k r.
            let same = sym (some-injective n' k r) in
            (same, ap (λ z. z.count) same ∙ sym (ap next_count e)),
      )

  merged :
      (found rows : List Notification)
      → filter (matches m u) rows ≡ found
      → OneMatches rows (merge_into m u found (others rows))
  unfolding new_notification
  merged [] rows e =
      let n = new_notification m u in
      let (a, b) = one_of n rows (new-matches m u) in
      (
        n,
        a,
        b,
        λ k r.
            let same = sym (some-injective n k r) in
            (same, ap (λ z. z.count) same ∙ sym (ap next_count e)),
      )
  merged (n ∷ older) rows e =
      finished n (merged_context n.context m.base_context) older rows e
        (head-filter (matches m u) n rows older e)

-- A manager that merges leaves exactly one notification that matches its lookup for the recipient,
-- also when the contexts cannot be merged and the call raises, and the other notifications as they
-- were. The notification that a call returns is that one, and its count is one more than that of the
-- last saved notification that matched before, or 1 if there was none.
pub merged-OneMatches :
    (m : Manager) (u : ℕ) (rows : List Notification)
    → m.merge ≡ true
    → OneMatches m u rows (update_or_create_notification_for_recipient m u rows)
unfolding update_or_create_notification_for_recipient
merged-OneMatches m u rows h =
    let fresh = new_notification m u in
    let old = filter (λ n. not (matches m u n)) rows in
    subst
      (λ b.
        OneMatches m u rows (
          if b then merge_into m u (filter (matches m u) rows) old else (some fresh, fresh ∷ rows)))
      (sym h) (merged m u (filter (matches m u) rows) rows refl)
