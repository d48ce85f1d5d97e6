-- ===== src/Observer/Events/Captures.antt =====
-- observer/alliaob.go: with a channel, checkEvents puts exactly the items to sign on it.
use btc_vendor_tools.Base.{
  ℕ, suc, ◌+◌, ◌≡◌, refl, ap, sym, ◌∙◌, inl, inr, true, List, [], ◌∷◌, ◌++◌, append-nil,
  append_assoc, flatten, arith, length, length-append,
}
use btc_vendor_tools.Wire.{Wire}
use btc_vendor_tools.LevelDb.{LevelDb}
use btc_vendor_tools.Utils.ToSign.{ToSignItem}
use btc_vendor_tools.Run.{finished, >>=-eq-finished, finished_pair}
use btc_vendor_tools.Observer.Events.{
  Value, ObConf, ObState, check_notify, check_notifies, check_loop, check_events,
}
use btc_vendor_tools.Observer.Events.Requests.{
  IsRequest, Requests, no_more, asks, passed, check_notify-IsRequest, Outcome, check_notify-Outcome,
}

module _ (w : Wire) (L : LevelDb) (conf : ObConf) (chan : conf.has_chan ≡ true) where
  Captured : List Value → ObState w L → ℕ → ObState w L → Type 0
  Captured vs st n st' =
      (items : List ToSignItem) × Requests w conf vs items
      × (st'.queue ≡ st.queue ++ items)
      × (n ≡ length items)

  sum_of : {c m n : ℕ} → c ≡ 0 → m ≡ n → c + m ≡ n
  sum_of p q = omega arith

  one_and : {c m n : ℕ} → c ≡ 1 → m ≡ n → c + m ≡ suc n
  one_and p q = omega arith

  one_more :
      (v : Value) (vs : List Value) (st st1 st' : ObState w L) (c m : ℕ)
      → check_notify w L conf v st ≡ finished (c, st1)
      → Captured vs st1 m st'
      → Captured (v ∷ vs) st (c + m) st'
  unfolding Captured Outcome
  one_more v vs st st1 st' c m e (items, requests, queue, count) =
      elim (check_notify-Outcome w L conf chan v st st1 c e) [
        | inl (none_more, same) ↦
            let never : (item : ToSignItem) → ¬ IsRequest w conf v item = (λ item r.
              let p = finished_pair (sym e ∙ check_notify-IsRequest w L conf chan v item st r) in
              omega arith) in
            (
              items,
              passed never requests,
              queue ∙ ap (λ q. q ++ items) same,
              sum_of none_more count,
            )
        | inr (one, (item, r, more)) ↦ (
          item ∷ items,
          asks item r requests,
          queue ∙ ap (λ q. q ++ items) more ∙ append_assoc st.queue (item ∷ []) items,
          one_and one count,
        )
      ]

  check_notifies-Captured :
      (vs : List Value) (st st' : ObState w L) (n n' : ℕ)
      → check_notifies w L conf vs n st ≡ finished (n', st')
      → (m : ℕ) × (n' ≡ n + m) × Captured vs st m st'
  unfolding check_notifies Captured
  check_notifies-Captured [] st st' n n' e =
      let p = finished_pair e in
      (0, omega arith, ([], no_more, ap (λ s. s.queue) p.1 ∙ sym (append-nil st.queue), refl))
  check_notifies-Captured (v ∷ vs) st st' n n' e =
      let ((c, st1), e1, e2) = >>=-eq-finished (check_notify w L conf v st) _ e in
      let (m, sum, rest) = check_notifies-Captured vs st1 st' (n + c) n' e2 in
      (c + m, omega arith, one_more v vs st st1 st' c m e1 rest)

  Requests-append :
      {vs ws : List Value} {xs ys : List ToSignItem}
      → Requests w conf vs xs
      → Requests w conf ws ys
      → Requests w conf (vs ++ ws) (xs ++ ys)
  Requests-append no_more s = s
  Requests-append (asks item r rs) s = asks item r (Requests-append rs s)
  Requests-append (passed never rs) s = passed never (Requests-append rs s)

  two_parts :
      (vs ws : List Value) (st st1 st' : ObState w L) (m k : ℕ)
      → Captured vs st m st1
      → Captured ws st1 k st'
      → Captured (vs ++ ws) st (m + k) st'
  unfolding Captured
  two_parts vs ws st st1 st' m k (xs, rx, qx, nx) (ys, ry, qy, ny) = (
    xs ++ ys,
    Requests-append rx ry,
    qy ∙ ap (λ q. q ++ ys) qx ∙ append_assoc st.queue xs ys,
    rw (nx, ny, length-append) refl,
  )

  check_loop-Captured :
      (es : List (List Value)) (st st' : ObState w L) (n n' : ℕ)
      → check_loop w L conf es n st ≡ finished (n', st')
      → (m : ℕ) × (n' ≡ n + m) × Captured (flatten es) st m st'
  unfolding check_loop Captured
  check_loop-Captured [] st st' n n' e =
      let p = finished_pair e in
      (0, omega arith, ([], no_more, ap (λ s. s.queue) p.1 ∙ sym (append-nil st.queue), refl))
  check_loop-Captured (v ∷ es) st st' n n' e =
      let ((c, st1), e1, e2) = >>=-eq-finished (check_notifies w L conf v n st) _ e in
      let (m, sum, first) = check_notifies-Captured v st st1 n c e1 in
      let (k, more, rest) = check_loop-Captured es st1 st' c n' e2 in
      (m + k, omega arith, two_parts v (flatten es) st st1 st' m k first rest)

-- With a channel, a run of checkEvents that finishes puts on it, in the order of the events and of
-- their notifications, the item of every notification that asks for a signature with this vendor's
-- key, and nothing else; the number it returns is the number of those items.
pub check_events_captures :
    (w : Wire) (L : LevelDb) (conf : ObConf)
    → conf.has_chan ≡ true
    → (events : List (List Value)) (st st' : ObState w L) (n : ℕ)
    → check_events w L conf events st ≡ finished (n, st')
    → (items : List ToSignItem) × Requests w conf (flatten events) items
      × (st'.queue ≡ st.queue ++ items)
      × (n ≡ length items)
unfolding check_events Captured
check_events_captures w L conf chan events st st' n e =
    let (m, sum, captured) = check_loop-Captured w L conf chan events st st' 0 n e in
    let (items, requests, queue, count) = captured in (items, requests, queue, omega arith)
