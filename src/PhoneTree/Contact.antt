-- ===== src/PhoneTree/Contact.antt =====
-- The fields of `phone_book_node_t` and the functions on one node (src/phone_book.c of
-- 04-03-avl-tree-phone-book). A text is its bytes; an array with a count is the list of its
-- entries below the count. A status is true for 0 and false for -1.
use eltex_education.Common.{
  ℕ, ◌≤◌, ◌<◌, Bool, not, Option, none, some, List, [], ◌∷◌, ◌++◌, leb, if◌then◌else◌, length, set,
  All,
}
use eltex_education.Common.Memory.{Pointer}
use eltex_education.Common.CString.{CString, cut}

abbrev pub name_size : ℕ
name_size = 100

abbrev pub phone_size : ℕ
phone_size = 12

abbrev pub email_size : ℕ
email_size = 100

abbrev pub social_link_size : ℕ
social_link_size = 200

abbrev pub max_entries : ℕ
max_entries = 5

pub record Contact : Type 0 where
  pub id : ℕ
  pub name : CString
  pub last_name : CString
  pub patronymic : CString
  pub home_address : CString
  pub workplace : CString
  pub job_title : CString
  pub phone_numbers : List CString
  pub emails : List CString
  pub social_links : List CString

-- The destination after the call, or `none` when it refuses and leaves it alone.
unfoldable pub copy_string : ℕ → Pointer CString → Option CString
copy_string size none = none
copy_string size (some source) = if leb size (length source) then none else some source

-- `add_phone`, `add_email` and `add_social_link` differ in the array and the size of an entry.
unfoldable pub add_entry : ℕ → List CString → Pointer CString → Option (List CString)
unfolding copy_string
add_entry size entries none = none
add_entry size entries (some text) =
    if leb max_entries (length entries)
    then none
    else elim (copy_string size (some text)) [ none ↦ none | some t ↦ some (entries ++ (t ∷ [])) ]

-- An edit of entry `index`.
unfoldable pub edit_entry : ℕ → List CString → ℕ → Pointer CString → Option (List CString)
unfolding copy_string
edit_entry size entries index text =
    if leb (length entries) index
    then none
    else elim (copy_string size text) [ none ↦ none | some t ↦ some (set entries index t) ]

abbrev set_phones : Contact → Option (List CString) → Option Contact
set_phones c none = none
set_phones c (some l) = some (record c { phone_numbers = l })

abbrev set_emails : Contact → Option (List CString) → Option Contact
set_emails c none = none
set_emails c (some l) = some (record c { emails = l })

abbrev set_social_links : Contact → Option (List CString) → Option Contact
set_social_links c none = none
set_social_links c (some l) = some (record c { social_links = l })

unfoldable pub add_phone : Contact → Pointer CString → Option Contact
unfolding add_entry
add_phone c text = set_phones c (add_entry phone_size c.phone_numbers text)

unfoldable pub add_email : Contact → Pointer CString → Option Contact
unfolding add_entry
add_email c text = set_emails c (add_entry email_size c.emails text)

unfoldable pub add_social_link : Contact → Pointer CString → Option Contact
unfolding add_entry
add_social_link c text = set_social_links c (add_entry social_link_size c.social_links text)

unfoldable pub edit_phone_of : ℕ → Pointer CString → Contact → Option Contact
unfolding edit_entry
edit_phone_of index text c = set_phones c (edit_entry phone_size c.phone_numbers index text)

unfoldable pub edit_email_of : ℕ → Pointer CString → Contact → Option Contact
unfolding edit_entry
edit_email_of index text c = set_emails c (edit_entry email_size c.emails index text)

unfoldable pub edit_social_link_of : ℕ → Pointer CString → Contact → Option Contact
unfolding edit_entry
edit_social_link_of index text c =
    set_social_links c (edit_entry social_link_size c.social_links index text)

-- An optional text of `phone_book_node_create`, cut to its field, or empty.
abbrev optional : Pointer CString → CString
optional none = []
optional (some s) = cut name_size s

abbrev with_phone : Contact → Pointer CString → Option Contact
with_phone c none = some c
with_phone c (some number) = add_phone c (some number)

-- `phone_book_node_create`; `alloc` is the success of `malloc`.
unfoldable pub node_create :
    Bool
    → ℕ
    → Pointer CString
    → Pointer CString
    → Pointer CString
    → Pointer CString
    → Pointer CString
    → Pointer CString
    → Pointer CString
    → Option Contact
unfolding add_phone
node_create alloc id none last_name patronymic phone home workplace job = none
node_create alloc id (some name) none patronymic phone home workplace job = none
node_create alloc id (some name) (some last_name) patronymic phone home workplace job =
    if not alloc
    then none
    else with_phone
        (record {
          id = id;
          name = cut name_size name;
          last_name = cut name_size last_name;
          patronymic = optional patronymic;
          home_address = optional home;
          workplace = optional workplace;
          job_title = optional job;
          phone_numbers = [];
          emails = [];
          social_links = [];
        })
        phone

-- Every text fits its array with its NUL, and no array holds more entries than it has.
pub record Fits (c : Contact) : Type 0 where
  pub name_fits : length c.name < name_size
  pub last_name_fits : length c.last_name < name_size
  pub patronymic_fits : length c.patronymic < name_size
  pub home_fits : length c.home_address < name_size
  pub workplace_fits : length c.workplace < name_size
  pub job_fits : length c.job_title < name_size
  pub phone_count : length c.phone_numbers ≤ max_entries
  pub email_count : length c.emails ≤ max_entries
  pub link_count : length c.social_links ≤ max_entries
  pub phones_fit : All (λ s. length s < phone_size) c.phone_numbers
  pub emails_fit : All (λ s. length s < email_size) c.emails
  pub links_fit : All (λ s. length s < social_link_size) c.social_links
