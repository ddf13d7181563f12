-- ===== src/Notifications/Tests.antt =====
-- Notifications of one project to its members.
use projects_backend.Base.{
  filter, ℕ, ◌≤◌, ◌≡◌, refl, true, false, none, some, List, [], ◌∷◌, map, arith,
}
use projects_backend.Notifications.{
  Item, by_id, merge_context_lists, merged_context, Notification, Standing, Manager,
  recipient_must_receive, matches, new_notification, with_defaults, counted,
  update_or_create_notification_for_recipient, create_and_send_notifications, dict, many,
}
use projects_backend.Notifications.Context.{
  first_with, last_with, count_id, or_else, merge_context_lists_entries,
}
use projects_backend.Notifications.Merged.{OneMatches, merged-OneMatches}
use projects_backend.Notifications.Reminder.Mails.{listed_for, reminder_loses}
use projects_backend.Notifications.Reminder.Exact.{waiting_for, send_notifications_reminder_exact}
use projects_backend.Notifications.Reminder.{is_pending, reminder_to, send_notifications_reminder}

abbrev standing : Standing
standing = record {
  member_setting = true;
  is_member = true;
  follower_setting = false;
  follows_project = false;
  category_follower_setting = false;
  follows_above_category = false;
}

-- members 4 and 5 join project 9, by user 1
abbrev joined : ℕ → Manager
joined member = record {
  type = 2;
  sender = some 1;
  project = some 9;
  organization = some 3;
  notify_followers = true;
  send_immediately = false;
  merge = true;
  base_context = (7, many (dict (some member) 0 ∷ [])) ∷ [];
  standing = λ u. standing;
  render = λ count c. count;
}

abbrev first : List Notification
first = (update_or_create_notification_for_recipient (joined 4) 6 []).1

abbrev second : List Notification
second = (update_or_create_notification_for_recipient (joined 5) 6 first).1

merge_test :
    second
    ≡ record {
      type = 2;
      sender = some 1;
      receiver = 6;
      project = some 9;
      organization = some 3;
      to_send = true;
      is_viewed = false;
      count = 2;
      context = (7, many (dict (some 4) 0 ∷ dict (some 5) 0 ∷ [])) ∷ [];
      reminder = 2;
    }
      ∷ []
unfolding update_or_create_notification_for_recipient matches with_defaults new_notification counted
    merged_context merge_context_lists by_id recipient_must_receive
merge_test = refl

mail_test :
    create_and_send_notifications
      (record (joined 4) { send_immediately = true; merge = false })
      (6 ∷ [])
      ([], [])
    ≡ some (
      record {
        type = 2;
        sender = some 1;
        receiver = 6;
        project = some 9;
        organization = some 3;
        to_send = false;
        is_viewed = false;
        count = 1;
        context = (7, many (dict (some 4) 0 ∷ [])) ∷ [];
        reminder = 1;
      }
          ∷ [],
      (6, 1) ∷ [],
    )
unfolding create_and_send_notifications update_or_create_notification_for_recipient new_notification
    recipient_must_receive
mail_test = refl

merged-OneMatches_example :
    OneMatches (joined 5) 6 first (update_or_create_notification_for_recipient (joined 5) 6 first)
merged-OneMatches_example = merged-OneMatches (joined 5) 6 first refl

merge_context_lists_entries_test :
    (r : List Item) × (merge_context_lists (dict (some 4) 0 ∷ []) (dict (some 4) 1 ∷ []) ≡ some r)
    × ((i : ℕ)
        → (count_id i r ≤ 1)
          × (first_with i r
              ≡ or_else (last_with i (dict (some 4) 1 ∷ [])) (last_with i (dict (some 4) 0 ∷ []))))
merge_context_lists_entries_test =
    merge_context_lists_entries (dict (some 4) 0 ∷ []) (dict (some 4) 1 ∷ []) (omega arith) refl
      refl

abbrev waiting : ℕ → Notification
waiting u = record {
  type = 2;
  sender = none;
  receiver = u;
  project = none;
  organization = none;
  to_send = true;
  is_viewed = false;
  count = 1;
  context = [];
  reminder = 1;
}

send_notifications_reminder_exact_example :
    ((v : ℕ)
      → listed_for v (send_notifications_reminder (waiting 6 ∷ waiting 7 ∷ [])).0
        ≡ waiting_for v (waiting 6 ∷ waiting 7 ∷ []))
    × ((send_notifications_reminder (waiting 6 ∷ waiting 7 ∷ [])).1
        ≡ map {A = Notification} (λ n. record n { to_send = false }) (waiting 6 ∷ waiting 7 ∷ []))
send_notifications_reminder_exact_example =
    send_notifications_reminder_exact (waiting 6 ∷ waiting 7 ∷ [])

reminder_loses_example :
    (filter (is_pending 6) (reminder_to 6 (waiting 6 ∷ []) (waiting 6 ∷ [])).1 ≡ [])
    × ((reminder_to 6 (waiting 6 ∷ []) (waiting 6 ∷ [])).0 ≡ (6, waiting 6 ∷ []) ∷ [])
reminder_loses_example = reminder_loses 6 (waiting 6 ∷ []) (waiting 6 ∷ []) (λ e. cc)
