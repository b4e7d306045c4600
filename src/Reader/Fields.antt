-- ===== src/Reader/Fields.antt =====
-- The accessors of ArgoRFID_Reader.c and the notification of a card.
use secure_rfid_login.Common.{
  ℕ, ◌+◌, ◌≤◌, ◌<◌, ◌≡◌, refl, Bool, true, false, none, some, List, [], ◌∷◌, ◌++◌, pos, minus_one,
  if◌then◌else◌, ok, fault, length, overwrite, strlen, strlen-lt-length, strcat, strcat_lem,
  strcpy_lem, c_str, codes, ◌∙◌, arith, le→ltb_false,
}
use secure_rfid_login.Reader.{
  Reader, Notification, Desktop, info_title, notify_flags, get_field, get_username, get_password,
  send_info_notification,
}

get_field_lem :
    (present : Bool) (field dst : List ℕ) {n : ℕ}
    → length field ≡ 64
    → strlen field ≡ some n
    → get_field present field dst
      ≡ ok (if present then (pos n, overwrite dst (c_str field ++ 0 ∷ [])) else (minus_one, dst))
unfolding get_field
get_field_lem true field dst {n} h e =
    let short : n ≤ 64 = omega (arith, strlen-lt-length field e) in rw (e, le→ltb_false 64 n short)
get_field_lem false field dst h e = refl

get_field_fault : (field dst : List ℕ) → strlen field ≡ none → get_field true field dst ≡ fault
unfolding get_field
get_field_fault field dst e = rw e refl

-- On a terminated user name `get_username` never reports an over-long one: it returns the length and
-- copies the text if a card is present, and returns -1 and copies nothing if not. On a user name that
-- fills its 64 bytes with no terminator it reads out of bounds.
pub get_username_lem :
    (g : Reader) (dst : List ℕ)
    → length g.username ≡ 64
    → ((n : ℕ)
        → strlen g.username ≡ some n
        → get_username g dst
          ≡ ok (
              if g.is_data_present
              then (pos n, overwrite dst (c_str g.username ++ 0 ∷ []))
              else (minus_one, dst)))
      × (g.is_data_present ≡ true → strlen g.username ≡ none → get_username g dst ≡ fault)
unfolding get_username
get_username_lem g dst h = (
  λ n e. get_field_lem g.is_data_present g.username dst h e,
  λ d e. rw d (get_field_fault g.username dst e),
)

pub get_password_lem :
    (g : Reader) (dst : List ℕ) {n : ℕ}
    → length g.password ≡ 64
    → strlen g.password ≡ some n
    → get_password g dst
      ≡ ok (
          if g.is_data_present
          then (pos n, overwrite dst (c_str g.password ++ 0 ∷ []))
          else (minus_one, dst))
unfolding get_password
get_password_lem g dst h e = get_field_lem g.is_data_present g.password dst h e

pub get_username_absent :
    (g : Reader) (dst : List ℕ)
    → g.is_data_present ≡ false
    → get_username g dst ≡ ok (minus_one, dst)
unfolding get_username get_field
get_username_absent g dst d = rw d

-- The globals and the world after a notification.
shown_as :
    {W : Type 0} (desktop : Desktop W) (g : Reader) (w : W) (name info title : List ℕ) → Reader × W
shown_as desktop g w name info title =
    let n : Notification = record {
      flags = notify_flags;
      info = info;
      info_title = title;
      info_flags = 1;
    } in
    (record g { name = name; notification = n }, desktop.modify_icon n w)

module _ {W : Type 0} (desktop : Desktop W) (g : Reader) (w : W) where
  -- Let name and surname be terminated, the name in 64 bytes, and let the notification have 64 bytes or
  -- more for its text and 34 or more for its title. If the joined text fits the name with its
  -- terminator, the shell is called once, with the joined text, the title "Tag detected! Starting
  -- Firefox..." and the flags, this notification is left in the globals, and the name is the joined
  -- text; if it does not fit, `strcat` writes out of bounds.
  pub send_info_notification_lem :
      (m n : ℕ)
      → length g.name ≡ 64
      → strlen g.name ≡ some m
      → strlen g.surname ≡ some n
      → 64 ≤ length g.notification.info
      → 34 ≤ length g.notification.info_title
      → (64 ≤ m + n → send_info_notification desktop g w ≡ fault)
        × (m + n < 64
            → (r : Reader × W) × (send_info_notification desktop g w ≡ ok r)
              × (c_str r.0.name ≡ c_str g.name ++ c_str g.surname)
              × (r.1 ≡ desktop.modify_icon r.0.notification w)
              × (c_str r.0.notification.info ≡ c_str g.name ++ c_str g.surname)
              × (c_str r.0.notification.info_title ≡ codes "Tag detected! Starting Firefox...")
              × (r.0.notification.flags ≡ 31)
              × (r.0.notification.info_flags ≡ 1))
  unfolding send_info_notification shown_as
  send_info_notification_lem m n h hm hn hi ht = (
    λ big. let full : strcat g.name g.surname ≡ none = ground (arith, hm, hn) in rw full,
    λ small.
        let joined = strcat_lem g.name g.surname hm hn (omega arith) in
        let shown = strcpy_lem g.notification.info joined.0 joined.2 (omega arith) in
        let title = strcpy_lem g.notification.info_title info_title {n = 33} refl (omega arith) in
        (
          shown_as desktop g w joined.0 shown.0 title.0,
          rw (joined.1, shown.1, title.1),
          joined.3,
          refl,
          shown.3 ∙ joined.3,
          title.3,
          refl,
          refl,
        ),
  )

-- What a notification does to the globals does not depend on the desktop.
pub send_info_notification_same :
    {W : Type 0} (desktop : Desktop W) (other : Desktop Unit) (g g' : Reader) (w w' : W)
    → send_info_notification desktop g w ≡ ok (g', w')
    → send_info_notification other g tt ≡ ok (g', tt)
unfolding send_info_notification
send_info_notification_same desktop other g g' w w' e = ground arith
