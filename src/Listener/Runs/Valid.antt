-- ===== src/Listener/Runs/Valid.antt =====
-- What is to hold in every state, and that it holds at the start, after a reset and after a join.
use crypto_crawler.Prelude.{ℕ, ◌≡◌, subst, inl, inr, Bool, true, false, ◌&&◌, Bool-cases, arith}
use crypto_crawler.OrderBook.Insert.{done, >>=-eq-done, done-injective}
use crypto_crawler.Listener.{
  Stage, unknown, before_sync, after_sync, resetting, Side, Listener, Which, buying, selling,
  side_of, set_side, new_listener, new_side, shutdown_subscriptions,
}
use crypto_crawler.Listener.Sync.{init_side, init_reset, synced_stage, finish_reset, join}
use crypto_crawler.Listener.Runs.Sides.{IsSound, running-IsSound, init_side-IsSound}

-- AFTER_SYNC, both sides are synchronised.
abbrev pub StageHolds : Stage → Bool → Bool → Type 0
StageHolds unknown buy sell = Unit
StageHolds before_sync buy sell = Unit
StageHolds after_sync buy sell = (buy ≡ true) × (sell ≡ true)
StageHolds resetting buy sell = Unit

pub record IsValid (l : Listener) : Type 0 where
  pub buy_sound : IsSound l.buy
  pub sell_sound : IsSound l.sell
  pub stage_holds : StageHolds l.stage l.buy.order_book_synced l.sell.order_book_synced

StageHolds-mono :
    (stage : Stage) {buy sell buy' sell' : Bool}
    → (buy ≡ true → buy' ≡ true)
    → (sell ≡ true → sell' ≡ true)
    → StageHolds stage buy sell
    → StageHolds stage buy' sell'
StageHolds-mono unknown b s h = tt
StageHolds-mono before_sync b s h = tt
StageHolds-mono after_sync b s h = (b h.0, s h.1)
StageHolds-mono resetting b s h = tt

-- Another side, which is synchronised if the old one was.
pub set_side-IsValid :
    (w : Which) (side : Side) (l : Listener)
    → IsValid l
    → IsSound side
    → ((side_of w l).order_book_synced ≡ true → side.order_book_synced ≡ true)
    → IsValid (set_side w side l)
set_side-IsValid buying side l h s keeps = record {
  buy_sound = s;
  sell_sound = h.sell_sound;
  stage_holds = StageHolds-mono l.stage keeps (λ e. e) h.stage_holds;
}
set_side-IsValid selling side l h s keeps = record {
  buy_sound = h.buy_sound;
  sell_sound = s;
  stage_holds = StageHolds-mono l.stage (λ e. e) keeps h.stage_holds;
}

pub side_of-IsSound : (w : Which) (l : Listener) → IsValid l → IsSound (side_of w l)
side_of-IsSound buying l h = h.buy_sound
side_of-IsSound selling l h = h.sell_sound

pub shutdown-IsValid : (l : Listener) → IsValid l → IsValid (shutdown_subscriptions l)
unfolding shutdown_subscriptions
shutdown-IsValid l h = record {
  buy_sound = running-IsSound l.buy false h.buy_sound;
  sell_sound = running-IsSound l.sell false h.sell_sound;
  stage_holds = h.stage_holds;
}

pub new_listener-IsValid : (p b s t : ℕ) → IsValid (new_listener p b s t)
unfolding new_listener new_side
new_listener-IsValid p b s t =
    let side : (n : ℕ) → IsSound (new_side n) =
      λ n. record { book_sorted = tt; queue_proper = tt; synced_holds = tt; thread_holds = tt } in
    record { buy_sound = side b; sell_sound = side s; stage_holds = tt }

pub init_reset-IsValid :
    (t : ℕ) (l : Listener) {l' : Listener} → init_reset t l ≡ done l' → IsValid l'
unfolding init_reset
init_reset-IsValid t l e =
    let (sell, es, e') = >>=-eq-done (init_side l.pair_id t l.sell) _ e in
    let (buy, eb, e'') = >>=-eq-done (init_side l.pair_id t l.buy) _ e' in
    subst IsValid (done-injective _ _ e'') (record {
      buy_sound = init_side-IsSound l.pair_id t l.buy eb;
      sell_sound = init_side-IsSound l.pair_id t l.sell es;
      stage_holds = tt;
    })

synced_stage-IsValid : (l : Listener) → IsValid l → IsValid (synced_stage l)
unfolding synced_stage
synced_stage-IsValid l h = elim (Bool-cases (l.sell.order_book_synced && l.buy.order_book_synced)) [
  | inl both ↦
      rw both
        (record { buy_sound = h.buy_sound; sell_sound = h.sell_sound; stage_holds = ground arith })
  | inr not_both ↦ rw not_both h
]

finish_reset-IsValid : (stage : Stage) (l : Listener) → IsValid l → IsValid (finish_reset stage l)
unfolding finish_reset
finish_reset-IsValid unknown l h = shutdown-IsValid l h
finish_reset-IsValid before_sync l h = shutdown-IsValid l h
finish_reset-IsValid after_sync l h = h
finish_reset-IsValid resetting l h = shutdown-IsValid l h

pub join-IsValid : (l : Listener) → IsValid l → IsValid (join l)
unfolding join
join-IsValid l h = finish_reset-IsValid _ _ (synced_stage-IsValid l h)
