-- ===== src/Notifications.antt =====
-- apps/notifications/utils.py: the notifications of a user, merged as they come. Outside are the
-- templates: `render` gives the reminder of a notification from its count and context.
pub mod Context
pub mod Merged
pub mod Reminder
mod Tests
use projects_backend.Base.{
  ltb, ◌==◌, if◌then◌else◌, is_some, length, any, all, filter, ◌>>=?◌, ℕ, ◌+◌, Bool, true, false,
  not, ◌&&◌, ◌||◌, Option, none, some, List, [], ◌∷◌, ◌++◌,
}

-- an entry of a list in a context: a value, or a dict with its key "id", if it has it
pub data Item : Type 0 where
  scalar : ℕ → Item
  dict : (id : Option ℕ) → (body : ℕ) → Item

pub data Value : Type 0 where
  one : ℕ → Value
  many : List Item → Value

abbrev pub NotificationContext : Type 0
NotificationContext = List (ℕ × Value)

abbrev pub has_key : Item → Bool
has_key (scalar v) = false
has_key (dict i b) = is_some i

abbrev pub same_id : ℕ → Item → Bool
same_id i (scalar v) = false
same_id i (dict none b) = false
same_id i (dict (some j) b) = i == j

abbrev pub put : Item → List Item → List Item
put (scalar v) ys = ys
put (dict none b) ys = ys
put (dict (some i) b) [] = dict (some i) b ∷ []
put (dict (some i) b) (y ∷ ys) =
    let rest = put (dict (some i) b) ys in if same_id i y then dict (some i) b ∷ ys else y ∷ rest

-- `{v["id"]: v for v in xs}.values()`, on top of the entries so far: an entry takes the place of an
-- earlier one with its id
unfoldable pub by_id : List Item → List Item → List Item
by_id done [] = done
by_id done (x ∷ xs) = by_id (put x done) xs

abbrev same_scalar : Item → Item → Bool
same_scalar (scalar v) (scalar w) = v == w
same_scalar _ _ = false

abbrev remove_duplicates : List Item → List Item
remove_duplicates [] = []
remove_duplicates (x ∷ xs) =
    let rest = remove_duplicates xs in if any (same_scalar x) xs then rest else x ∷ rest

abbrev is_scalar : Item → Bool
is_scalar (scalar v) = true
is_scalar (dict i b) = false

-- `none` is an exception: a current entry has no "id", or a dict is put into a set
unfoldable pub merge_context_lists : List Item → List Item → Option (List Item)
unfolding by_id
merge_context_lists current new =
    if ltb 0 (length new) && all has_key new
    then (if all has_key current then some (by_id [] (current ++ new)) else none)
    else (if all is_scalar (current ++ new)
        then some (remove_duplicates (current ++ new))
        else none)

-- `notification.context.get(key, [])`; a value that is no list cannot be added to one
abbrev get_list : ℕ → NotificationContext → Option (List Item)
get_list k [] = some []
get_list k ((j, one v) ∷ rest) = let later = get_list k rest in if j == k then none else later
get_list k ((j, many xs) ∷ rest) = let later = get_list k rest in if j == k then some xs else later

-- the context of a notification that was there
unfoldable pub merged_context :
    NotificationContext → NotificationContext → Option NotificationContext
merged_context old [] = some []
merged_context old ((k, one v) ∷ rest) =
    merged_context old rest >>=? λ more. some ((k, one v) ∷ more)
merged_context old ((k, many xs) ∷ rest) = get_list k old >>=? λ current.
    merge_context_lists current xs >>=? λ merged.
    merged_context old rest >>=? λ more. some ((k, many merged) ∷ more)

pub record Notification : Type 0 where
  pub type : ℕ
  pub sender : Option ℕ
  pub receiver : ℕ
  pub project : Option ℕ
  pub organization : Option ℕ
  pub to_send : Bool
  pub is_viewed : Bool
  pub count : ℕ
  pub context : NotificationContext
  pub reminder : ℕ

-- What `recipient_must_receive` asks of the database about a recipient.
pub record Standing : Type 0 where
  pub member_setting : Bool
  pub is_member : Bool
  pub follower_setting : Bool
  pub follows_project : Bool
  pub category_follower_setting : Bool
  pub follows_above_category : Bool

pub record Manager : Type 0 where
  pub type : ℕ
  pub sender : Option ℕ
  pub project : Option ℕ
  pub organization : Option ℕ
  pub notify_followers : Bool
  pub send_immediately : Bool
  pub merge : Bool
  pub base_context : NotificationContext
  pub standing : (recipient : ℕ) → Standing
  pub render : (count : ℕ) → NotificationContext → ℕ

abbrev in_project : Standing → Bool
in_project s =
    (s.member_setting && s.is_member)
    || (s.follower_setting && s.follows_project)
    || (s.category_follower_setting && s.follows_above_category)

unfoldable pub recipient_must_receive : Manager → ℕ → Bool
recipient_must_receive m u =
    if is_some m.project && m.notify_followers
    then in_project (m.standing u)
    else (m.standing u).member_setting

abbrev pub same_option : Option ℕ → Option ℕ → Bool
same_option none none = true
same_option (some a) (some b) = a == b
same_option _ _ = false

abbrev pub same_bool : Bool → Bool → Bool
same_bool true b = b
same_bool false b = not b

-- `to_send` of the lookup
abbrev pub will_send : Manager → ℕ → Bool
will_send m u = recipient_must_receive m u && not m.send_immediately

-- the rows that `lookup` selects
unfoldable pub matches : Manager → ℕ → Notification → Bool
matches m u n =
    n.type == m.type
    && same_option n.sender m.sender
    && n.receiver == u
    && same_option n.project m.project
    && same_option n.organization m.organization
    && same_bool n.to_send (will_send m u)
    && (not m.send_immediately || not n.is_viewed)

-- a new row: `defaults` and `lookup`, with the context that is saved next
unfoldable pub new_notification : Manager → ℕ → Notification
new_notification m u = record {
  type = m.type;
  sender = m.sender;
  receiver = u;
  project = m.project;
  organization = m.organization;
  to_send = will_send m u;
  is_viewed = false;
  count = 1;
  context = m.base_context;
  reminder = m.render 1 m.base_context;
}

-- `update_or_create` on the row that is there
unfoldable pub with_defaults : Manager → Notification → Notification
with_defaults m n = record n {
  is_viewed = if m.send_immediately then n.is_viewed else false;
  reminder = m.render 1 m.base_context;
}

unfoldable pub counted : Manager → Notification → NotificationContext → Notification
counted m n context = record n {
  count = n.count + 1;
  context = context;
  reminder = m.render (n.count + 1) context;
}

-- the rest of the function for the row that is there; without a merged context it has raised
abbrev pub finish_update :
    Manager
    → Notification
    → Option NotificationContext
    → List Notification
    → Option (Notification) × List Notification
finish_update m n none others = (none, n ∷ others)
finish_update m n (some context) others = (some (counted m n context), counted m n context ∷ others)

-- the branch `if self.merge`, on the rows that match and on the others
abbrev pub merge_into :
    Manager → ℕ → List Notification → List Notification → Option Notification × List Notification
merge_into m u [] others = (some (new_notification m u), new_notification m u ∷ others)
merge_into m u (n ∷ older) others =
    finish_update m (with_defaults m n) (merged_context n.context m.base_context) others

-- The rows are kept with the last saved first, which is the order of `created` (an `auto_now` field).
-- The result is the notification, or `none` after an exception.
unfoldable pub update_or_create_notification_for_recipient :
    Manager → ℕ → List Notification → Option Notification × List Notification
update_or_create_notification_for_recipient m u rows =
    if m.merge
    then merge_into m u (filter (matches m u) rows) (filter (λ n. not (matches m u n)) rows)
    else (some (new_notification m u), new_notification m u ∷ rows)

-- a mail: its recipient, and the count in its context
abbrev Mail : Type 0
Mail = ℕ × ℕ

abbrev mail_if : Bool → ℕ → Notification → List Mail → List Mail
mail_if true u n mails = (u, n.count) ∷ mails
mail_if false u n mails = mails

-- `create_and_send_notifications`; the mails that were sent, the last first
unfoldable pub create_and_send_notifications :
    Manager → List ℕ → List Notification × List Mail → Option (List Notification × List Mail)
create_and_send_notifications m [] s = some s
create_and_send_notifications m (u ∷ us) (rows, mails) =
    let (result, rows') = update_or_create_notification_for_recipient m u rows in
    result >>=? λ n.
    create_and_send_notifications m us
      (rows', mail_if (recipient_must_receive m u && m.send_immediately) u n mails)
