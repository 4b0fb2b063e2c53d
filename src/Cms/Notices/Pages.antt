-- ===== src/Cms/Notices/Pages.antt =====
-- The pages of sendNotifications cover the accounts, each once.
use system_chat.Base.{
  ℕ, zero, suc, ◌+◌, ◌-◌, ◌*◌, ◌/◌, ◌≤◌, ◌<◌, ◌≡◌, ◌==◌, leb, refl, sym, ap, ◌∙◌, Bool, ◌&&◌, List,
  [], ◌∷◌, ℤ, arith, map, length, take, count_where, select_where, Bool-cases, inl, inr,
  length-select_where, count_where-select_where, count_where-join, count_where-take-drop,
  count_where-take_all, count_where-length,
}
use system_chat.Cms.Notices.{
  Recipient, SendQuery, SentNotice, receives, max_quota, max_pool, page, pages_down, query_by_index,
  process_send, process_all, send_loop, send_notifications, send_notification_for_account,
}

module _ {A : Type 0} (p : A → Bool) where
  -- Those on page 0 up to page `c`.
  abbrev up_to : List A → ℕ → ℕ
  up_to xs zero = count_where p (page xs 0)
  up_to xs (suc c) = count_where p (page xs (suc c)) + up_to xs c

  abbrev on_pages : List A → List ℕ → ℕ
  on_pages xs [] = 0
  on_pages xs (i ∷ is) = count_where p (page xs i) + on_pages xs is

  pages_down_rest :
      (n c : ℕ) (xs : List A) → n ≤ c → on_pages xs (pages_down n c) + up_to xs (c - n) ≡ up_to xs c
  pages_down_rest zero c xs h = ground arith
  pages_down_rest (suc n) zero xs h = ground (arith, h)
  pages_down_rest (suc n) (suc c) xs h = ground (arith, pages_down_rest n c xs (omega (arith, h)))

  pages_down_last : (n c : ℕ) (xs : List A) → c < n → on_pages xs (pages_down n c) ≡ up_to xs c
  pages_down_last zero c xs h = ground (arith, h)
  pages_down_last (suc n) zero xs h = omega arith
  pages_down_last (suc n) (suc c) xs h = omega (arith, pages_down_last n c xs (omega (arith, h)))

  pub up_to-take :
      (c : ℕ) (xs : List A) → up_to xs c ≡ count_where p (take (max_quota * c + max_quota) xs)
  up_to-take zero xs = refl
  up_to-take (suc c) xs =
      let more : max_quota * suc c ≡ max_quota * c + max_quota = omega arith in
      let here = count_where-take-drop p (max_quota * suc c) max_quota xs in
      ground (arith, more, here, up_to-take c xs)

-- The notifications for one account.
abbrev pub is_for : ℕ → SentNotice → Bool
is_for id n = n.account_id == id

abbrev is_recipient : ℕ → Recipient → Bool
is_recipient id r = r.id == id

count_where-process_send :
    (id title description : ℕ) (rows : List Recipient)
    → count_where (is_for id) (process_send title description rows)
      ≡ count_where (is_recipient id) rows
unfolding process_send
count_where-process_send id title description [] = refl
count_where-process_send id title description (r ∷ rows) =
    omega (arith, count_where-process_send id title description rows)

count_where-process_pages :
    (id title description : ℕ) (rows : List Recipient) (is : List ℕ)
    → count_where (is_for id) (process_all title description (map (page rows) is))
      ≡ on_pages (is_recipient id) rows is
count_where-process_pages id title description rows [] = refl
count_where-process_pages id title description rows (i ∷ is) =
    count_where-join (is_for id) (process_send title description (page rows i))
      (process_all title description (map (page rows) is))
    ∙ omega (
      arith,
      count_where-process_send id title description (page rows i),
      count_where-process_pages id title description rows is,
    )

-- With fuel for more than the pages from `c` down, the loop sends to those on them, once each.
send_loop-up_to :
    (fuel id title description c : ℕ) (rows : List Recipient)
    → c < fuel
    → count_where (is_for id) (send_loop fuel title description rows c)
      ≡ up_to (is_recipient id) rows c
unfolding send_loop query_by_index
send_loop-up_to zero id title description c rows h = ground (arith, h)
send_loop-up_to (suc fuel) id title description c rows h =
    let pages = pages_down max_pool c in
    let here = count_where-process_pages id title description rows pages in
    let sent = process_all title description (map (page rows) pages) in
    elim (Bool-cases (leb max_pool c)) [
      | inl more ↦ rw more (
          count_where-join (is_for id) sent (send_loop fuel title description rows (c - max_pool))
          ∙ ground (
            arith,
            here,
            more,
            h,
            send_loop-up_to fuel id title description (c - max_pool) rows (ground (arith, more, h)),
            pages_down_rest (is_recipient id) max_pool c rows (ground (arith, more)),
          ))
      | inr last ↦ rw last (
          count_where-join (is_for id) sent []
          ∙ ground (
            arith,
            here,
            pages_down_last (is_recipient id) max_pool c rows (ground (arith, last)),
          ))
    ]

send_notifications_all :
    (id title description : ℕ) (rows : List Recipient)
    → count_where (is_for id) (send_notifications title description rows (length rows))
      ≡ count_where (is_recipient id) rows
unfolding send_notifications
send_notifications_all id title description rows =
    let c = length rows / max_quota in
    send_loop-up_to (suc c) id title description c rows (omega arith)
    ∙ up_to-take (is_recipient id) c rows
    ∙ count_where-take_all (is_recipient id) (max_quota * c + max_quota) rows (omega arith)

-- However many accounts there are, the loop over the pages ends, and it stores as many
-- notifications for an account as there are rows with its id that pass the filter.
pub send_notification_reaches :
    (least : ℤ) (id title description : ℕ) (query : SendQuery) (accounts : List Recipient)
    → count_where
        (is_for id)
        (send_notification_for_account least title description query accounts).1
      ≡ count_where (λ r. receives least query r && r.id == id) accounts
unfolding send_notification_for_account
send_notification_reaches least id title description query accounts =
    let p = receives least query in
    let total = count_where p accounts in
    let rows = select_where p accounts in
    let both = count_where-select_where (is_recipient id) p accounts in
    let size = length-select_where p accounts in
    elim (Bool-cases (total == 0)) [
      | inl nobody ↦
          rw nobody (ground (arith, both, size, nobody, count_where-length (is_recipient id) rows))
      | inr some_one ↦ rw some_one (
          ap (λ n. count_where (is_for id) (send_notifications title description rows n)) (sym size)
          ∙ send_notifications_all id title description rows
          ∙ both)
    ]
