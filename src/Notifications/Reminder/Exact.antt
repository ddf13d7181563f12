-- ===== src/Notifications/Reminder/Exact.antt =====
-- apps/notifications/tasks.py: the reminder lists every notification that waits, once.
use projects_backend.Base.{
  ◌==◌, if◌then◌else◌, ==_iff, Bool-cases, mem, any, filter, ℕ, ◌≡◌, refl, sym, ap, subst, ◌∙◌, inl,
  inr, true, false, ◌&&◌, List, [], ◌∷◌, ◌++◌, map, arith,
}
use projects_backend.Notifications.Reminder.Mails.{
  listed_for, listed_for-append, pending-mark_sent, reminder_lists,
}
use projects_backend.Notifications.Reminder.{
  is_pending, reverse_onto, read_pending, unsend, mark_sent, reminder_to, send_reminders,
  distinct_receivers, send_notifications_reminder,
}
use projects_backend.Notifications.{Notification}
use mathlib.Core.List.{append_assoc, append-nil}

-- the rows when the users of a list have been reminded
abbrev unsend_for : List ℕ → Notification → Notification
unsend_for us n = if n.to_send && mem n.receiver us then unsend n else n

unsend_for-mark_sent :
    (u : ℕ) (us : List ℕ) (rows : List Notification)
    → map (unsend_for us) (mark_sent u rows) ≡ map (unsend_for (u ∷ us)) rows
unsend_for-mark_sent u us [] = refl
unsend_for-mark_sent u us (n ∷ rows) = elim (Bool-cases (is_pending u n)) [
  | inl e ↦ rw e (ground (arith, unsend_for-mark_sent u us rows))
  | inr e ↦ rw e (ground (arith, unsend_for-mark_sent u us rows))
]

unsend_for-none : (rows : List Notification) → map (unsend_for []) rows ≡ rows
unsend_for-none [] = refl
unsend_for-none (n ∷ rows) = ground (arith, unsend_for-none rows)

read_pending-mark_sent :
    (u v : ℕ) (rows : List Notification)
    → read_pending v (mark_sent u rows) ≡ (if u == v then [] else read_pending v rows)
read_pending-mark_sent u v rows = elim (Bool-cases (u == v)) [
  | inl e ↦ ap (λ z. reverse_onto z []) (pending-mark_sent v u rows) ∙ rw e
  | inr e ↦ ap (λ z. reverse_onto z []) (pending-mark_sent v u rows) ∙ rw e
]

-- one more user before some others
listed_step :
    (u v : ℕ) (us : List ℕ) (rows : List Notification)
    → (if u == v then read_pending u rows else [])
        ++ (if mem v us then (if u == v then [] else read_pending v rows) else [])
      ≡ (if mem v (u ∷ us) then read_pending v rows else [])
listed_step u v us rows = elim (Bool-cases (u == v)) [
  | inl e ↦
      let same : u ≡ v = ground arith in
      let flipped : (v == u) ≡ true = ground arith in
      elim (Bool-cases (mem v us)) [
        | inl m ↦
            rw (e, flipped, m)
              (append-nil (read_pending u rows) ∙ ap (λ z. read_pending z rows) same)
        | inr m ↦
            rw (e, flipped, m)
              (append-nil (read_pending u rows) ∙ ap (λ z. read_pending z rows) same)
      ]
  | inr e ↦ let flipped : (v == u) ≡ false = ground arith in rw (e, flipped)
]

reminders_lists :
    (us : List ℕ) (rows : List Notification)
    → ((v : ℕ)
        → listed_for v (send_reminders us rows).0 ≡ (if mem v us then read_pending v rows else []))
      × ((send_reminders us rows).1 ≡ map (unsend_for us) rows)
unfolding send_reminders
reminders_lists [] rows = (λ v. refl, sym (unsend_for-none rows))
reminders_lists (u ∷ us) rows =
    let (now, marked) = reminder_lists u rows in
    let (later, left) = reminders_lists us (reminder_to u [] rows).1 in
    (
      λ v.
          listed_for-append v (reminder_to u [] rows).0
            (send_reminders us (reminder_to u [] rows).1).0
          ∙ ap (λ z. z ++ listed_for v (send_reminders us (reminder_to u [] rows).1).0) (now v)
          ∙ ap (λ z. (if u == v then read_pending u rows else []) ++ z)
              (later v
                ∙ ap (λ z. if mem v us then read_pending v z else []) marked
                ∙ ap (λ z. if mem v us then z else []) (read_pending-mark_sent u v rows))
          ∙ listed_step u v us rows,
      left ∙ ap (map (unsend_for us)) marked ∙ unsend_for-mark_sent u us rows,
    )

-- The users that are reminded are those with a notification that waits.
mem-distinct_receivers :
    (v : ℕ) (rows : List Notification)
    → mem v (distinct_receivers rows) ≡ any (λ n. v == n.receiver) rows
mem-distinct_receivers v [] = refl
mem-distinct_receivers v (n ∷ rows) = elim (Bool-cases (mem n.receiver (distinct_receivers rows))) [
  | inr e ↦ rw e (ground (arith, mem-distinct_receivers v rows))
  | inl e ↦ rw e (elim (Bool-cases (v == n.receiver)) [
    | inl same ↦
        let known : mem v (distinct_receivers rows) ≡ true =
          subst (λ z. mem z (distinct_receivers rows) ≡ true) (sym ((==_iff v n.receiver).0 same))
            e in
        rw same known
    | inr other ↦ rw other (mem-distinct_receivers v rows)
  ])
]

waits :
    (v : ℕ) (rows : List Notification)
    → any (λ n. v == n.receiver) (filter (λ n. n.to_send) rows) ≡ false
    → filter (is_pending v) rows ≡ []
waits v [] h = refl
waits v (n ∷ rows) h = ground (arith, waits v rows)

-- `us` has every receiver of a notification that waits.
abbrev Covers : List ℕ → List Notification → Type 0
Covers us rows =
    (v : ℕ) → any (λ n. v == n.receiver) (filter (λ n. n.to_send) rows) ≡ true → mem v us ≡ true

any_more :
    (v : ℕ) (n : Notification) (rows : List Notification)
    → any (λ k. v == k.receiver) (filter (λ k. k.to_send) rows) ≡ true
    → any (λ k. v == k.receiver) (filter (λ k. k.to_send) (n ∷ rows)) ≡ true
any_more v n rows h = ground arith

any_first :
    (n : Notification) (rows : List Notification)
    → n.to_send ≡ true
    → any (λ k. n.receiver == k.receiver) (filter (λ k. k.to_send) (n ∷ rows)) ≡ true
any_first n rows h = ground arith

unsend_idle : (n : Notification) → n.to_send ≡ false → n ≡ unsend n
unsend_idle n h = ground arith

all_unsent :
    (us : List ℕ) (rows : List Notification)
    → Covers us rows
    → map (unsend_for us) rows ≡ map unsend rows
all_unsent us [] c = refl
all_unsent us (n ∷ rows) c =
    let rest = all_unsent us rows (λ v h. c v (any_more v n rows h)) in
    elim (Bool-cases n.to_send) [
      | inl e ↦
          let known = c n.receiver (any_first n rows e) in
          let both : (n.to_send && mem n.receiver us) ≡ true = ground arith in
          rw both (ap (λ z. unsend n ∷ z) rest)
      | inr e ↦
          let idle : (n.to_send && mem n.receiver us) ≡ false = ground arith in
          rw idle (ap (λ z. n ∷ z) rest ∙ ap (λ z. z ∷ map unsend rows) (unsend_idle n e))
    ]

-- The notifications that wait for a user, the one that was saved first in front; the last row of the
-- table is the oldest.
abbrev pub waiting_for : ℕ → List Notification → List Notification
waiting_for v [] = []
waiting_for v (n ∷ rows) =
    waiting_for v rows ++ (if n.receiver == v && n.to_send then n ∷ [] else [])

reverse_onto_waiting :
    (v : ℕ) (rows done : List Notification)
    → reverse_onto (filter (is_pending v) rows) done ≡ waiting_for v rows ++ done
reverse_onto_waiting v [] done = refl
reverse_onto_waiting v (n ∷ rows) done = elim (Bool-cases (is_pending v n)) [
  | inl e ↦ rw e (
      reverse_onto_waiting v rows (n ∷ done)
      ∙ sym (append_assoc (waiting_for v rows) (n ∷ []) done))
  | inr e ↦ rw e (
      reverse_onto_waiting v rows done
      ∙ ap (λ z. z ++ done) (sym (append-nil (waiting_for v rows))))
]

read_pending-waiting_for :
    (v : ℕ) (rows : List Notification) → read_pending v rows ≡ waiting_for v rows
read_pending-waiting_for v rows = reverse_onto_waiting v rows [] ∙ append-nil (waiting_for v rows)

-- When nothing is saved meanwhile, the reminder lists for each user exactly the notifications that
-- waited to be sent to them, in the order in which they were saved and each once, and afterwards no
-- notification waits; in all else they are as before.
pub send_notifications_reminder_exact :
    (rows : List Notification)
    → ((v : ℕ) → listed_for v (send_notifications_reminder rows).0 ≡ waiting_for v rows)
      × ((send_notifications_reminder rows).1
          ≡ map {A = Notification} (λ n. record n { to_send = false }) rows)
unfolding send_notifications_reminder
send_notifications_reminder_exact rows =
    let waiting = filter (λ n. n.to_send) rows in
    let us = distinct_receivers waiting in
    let (lists, left) = reminders_lists us rows in
    (
      λ v.
          lists v
          ∙ elim (Bool-cases (mem v us)) [
            | inl m ↦ rw m
            | inr m ↦ rw m (
                sym (
                  ap (λ z. reverse_onto z [])
                    (waits v rows (sym (mem-distinct_receivers v waiting) ∙ m))))
          ]
          ∙ read_pending-waiting_for v rows,
      left ∙ all_unsent us rows (λ v h. mem-distinct_receivers v waiting ∙ h),
    )
