-- ===== src/Notifications/Reminder.antt =====
-- apps/notifications/tasks.py: the reminder that mails the notifications that wait.
pub mod Mails
pub mod Exact
use projects_backend.Base.{
  ◌==◌, if◌then◌else◌, mem, filter, ℕ, Bool, false, ◌&&◌, List, [], ◌∷◌, ◌++◌, map,
}
use projects_backend.Notifications.{Notification}

-- `Notification.objects.filter(receiver=user, to_send=True)`
abbrev pub is_pending : ℕ → Notification → Bool
is_pending u n = n.receiver == u && n.to_send

abbrev pub reverse_onto : List Notification → List Notification → List Notification
reverse_onto [] done = done
reverse_onto (n ∷ ns) done = reverse_onto ns (n ∷ done)

-- the notifications that the mail lists, in the order of `created`
abbrev pub read_pending : ℕ → List Notification → List Notification
read_pending u rows = reverse_onto (filter (is_pending u) rows) []

abbrev pub unsend : Notification → Notification
unsend n = record n { to_send = false }

-- `notifications.update(to_send=False)`, which selects the rows anew
abbrev pub mark_sent : ℕ → List Notification → List Notification
mark_sent u rows = map (λ n. if is_pending u n then unsend n else n) rows

-- a reminder: its recipient and what it lists
abbrev pub ReminderMail : Type 0
ReminderMail = ℕ × List Notification

abbrev pub remind :
    ℕ → List Notification → List Notification → List ReminderMail × List Notification
remind u [] rows = ([], rows)
remind u (n ∷ ns) rows = ((u, n ∷ ns) ∷ [], mark_sent u rows)

-- The reminder of one user; the notifications of `arrived` are saved by others between the mail and
-- the update.
unfoldable pub reminder_to :
    ℕ → List Notification → List Notification → List ReminderMail × List Notification
reminder_to u arrived rows = remind u (read_pending u rows) (arrived ++ rows)

unfoldable pub send_reminders : List ℕ → List Notification → List ReminderMail × List Notification
send_reminders [] rows = ([], rows)
send_reminders (u ∷ us) rows =
    let (mails, rows') = reminder_to u [] rows in
    let (more, rows'') = send_reminders us rows' in (mails ++ more, rows'')

abbrev pub distinct_receivers : List Notification → List ℕ
distinct_receivers [] = []
distinct_receivers (n ∷ ns) =
    let rest = distinct_receivers ns in if mem n.receiver rest then rest else n.receiver ∷ rest

-- `send_notifications_reminder`
unfoldable pub send_notifications_reminder :
    List Notification → List ReminderMail × List Notification
send_notifications_reminder rows =
    send_reminders (distinct_receivers (filter (λ n. n.to_send) rows)) rows
