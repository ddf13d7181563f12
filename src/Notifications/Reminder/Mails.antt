-- ===== src/Notifications/Reminder/Mails.antt =====
-- apps/notifications/tasks.py: the mail of one user, and what is saved meanwhile.
use projects_backend.Base.{
  ◌==◌, if◌then◌else◌, ==_iff, Bool-cases, filter, ℕ, ◌≡◌, refl, sym, ap, ◌∙◌, ◌≢◌, inl, inr, List,
  [], ◌∷◌, ◌++◌, arith,
}
use projects_backend.Notifications.Reminder.{
  is_pending, reverse_onto, read_pending, mark_sent, ReminderMail, remind, reminder_to,
}
use projects_backend.Notifications.{Notification}
use mathlib.Core.List.{append_assoc, append-nil}

-- what the mails to a user list
abbrev pub listed_for : ℕ → List ReminderMail → List Notification
listed_for u [] = []
listed_for u ((v, ns) ∷ mails) = if v == u then ns ++ listed_for u mails else listed_for u mails

pub listed_for-append :
    (u : ℕ) (xs ys : List ReminderMail)
    → listed_for u (xs ++ ys) ≡ listed_for u xs ++ listed_for u ys
listed_for-append u [] ys = refl
listed_for-append u ((v, ns) ∷ xs) ys = elim (Bool-cases (v == u)) [
  | inl e ↦ rw e (
      ap (λ z. ns ++ z) (listed_for-append u xs ys)
      ∙ sym (append_assoc ns (listed_for u xs) (listed_for u ys)))
  | inr e ↦ rw e (listed_for-append u xs ys)
]

-- Marking the notifications of one user leaves none of them pending, and those of others as they are.
pub pending-mark_sent :
    (u v : ℕ) (rows : List Notification)
    → filter (is_pending u) (mark_sent v rows) ≡ (if v == u then [] else filter (is_pending u) rows)
pending-mark_sent u v [] = ground arith
pending-mark_sent u v (n ∷ rows) = elim (Bool-cases (is_pending v n)) [
  | inl e ↦ rw e (ground (arith, pending-mark_sent u v rows))
  | inr e ↦ rw e (ground (arith, pending-mark_sent u v rows))
]

mark_sent-pending :
    (u : ℕ) (rows : List Notification) → filter (is_pending u) rows ≡ [] → mark_sent u rows ≡ rows
mark_sent-pending u [] h = refl
mark_sent-pending u (n ∷ rows) h = elim (Bool-cases (is_pending u n)) [
  | inl e ↦ cc (rw e at h)
  | inr e ↦ rw e (ap (λ z. n ∷ z) (mark_sent-pending u rows (rw e at h)))
]

reverse_onto-nil :
    (ns done : List Notification) → reverse_onto ns done ≡ [] → (ns ≡ []) × (done ≡ [])
reverse_onto-nil [] done h = (refl, h)
reverse_onto-nil (n ∷ ns) done h = let (a, b) = reverse_onto-nil ns (n ∷ done) h in cc

-- A reminder lists what is pending for its user, and marks it.
pub reminder_lists :
    (u : ℕ) (rows : List Notification)
    → ((v : ℕ)
        → listed_for v (reminder_to u [] rows).0 ≡ (if u == v then read_pending u rows else []))
      × ((reminder_to u [] rows).1 ≡ mark_sent u rows)
unfolding reminder_to
reminder_lists u rows = reminded u (read_pending u rows) rows refl
  where
    reminded :
        (u : ℕ) (ns rows : List Notification)
        → read_pending u rows ≡ ns
        → ((v : ℕ) → listed_for v (remind u ns rows).0 ≡ (if u == v then ns else []))
          × ((remind u ns rows).1 ≡ mark_sent u rows)
    reminded u [] rows e = (
      λ v. ground arith,
      sym (mark_sent-pending u rows (reverse_onto-nil (filter (is_pending u) rows) [] e).0),
    )
    reminded u (n ∷ ns) rows e = (
      λ v. elim (Bool-cases (u == v)) [
        | inl same ↦ rw same (append-nil (n ∷ ns))
        | inr other ↦ rw other
      ],
      refl,
    )

-- A notification for a user that is saved between the mail of the reminder and the update that
-- follows is lost, when the reminder had something to send: it waits no longer, and the mails are
-- those of the notifications that were there before.
pub reminder_loses :
    (u : ℕ) (arrived rows : List Notification)
    → filter (is_pending u) rows ≢ []
    → (filter (is_pending u) (reminder_to u arrived rows).1 ≡ [])
      × ((reminder_to u arrived rows).0 ≡ (u, read_pending u rows) ∷ [])
unfolding reminder_to
reminder_loses u arrived rows some_pending =
    lost u (read_pending u rows) (arrived ++ rows)
      (λ e. some_pending (reverse_onto-nil (filter (is_pending u) rows) [] e).0)
  where
    lost :
        (u : ℕ) (ns all_ : List Notification)
        → ns ≢ []
        → (filter (is_pending u) (remind u ns all_).1 ≡ []) × ((remind u ns all_).0 ≡ (u, ns) ∷ [])
    lost u [] all_ h = absurd (h refl)
    lost u (n ∷ ns) all_ h = (pending-mark_sent u u all_ ∙ rw ((==_iff u u).1 refl), refl)
