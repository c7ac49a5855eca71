-- ===== src/Listener/Runs/Invariant.antt =====
-- What holds in every state that a run of the listener reaches.
use crypto_crawler.Prelude.{ℕ, Bool, false, ◌&&◌, ◌∙◌}
use crypto_crawler.Listener.{Listener, side_of}
use crypto_crawler.Listener.Runs.{
  Step, resets, subscribes, stops, fetches, drains, finishes, joins, delivers, Reach, starts, steps,
}
use crypto_crawler.Listener.Runs.Sides.{
  running-IsSound, subscribe-Keeps, sync_fetch-Keeps, sync_finish-IsSound, sync_finish-synced,
}
use crypto_crawler.Listener.Runs.Sides.Rounds.{sync_round-Keeps}
use crypto_crawler.Listener.Runs.Valid.{
  IsValid, set_side-IsValid, side_of-IsSound, new_listener-IsValid, init_reset-IsValid,
  join-IsValid,
}
use crypto_crawler.Listener.Runs.Delivery.{message-IsValid}

Step-IsValid : {go : Bool} {l l' : Listener} → Step go l l' → IsValid l → IsValid l'
Step-IsValid {l = l} (resets t can e) h = init_reset-IsValid t l e
Step-IsValid {l = l} (subscribes w e) h =
    let (s, same) = subscribe-Keeps (side_of w l) (side_of-IsSound w l h) e in
    set_side-IsValid w _ l h s (λ k. same ∙ k)
Step-IsValid {l = l} (stops w) h =
    set_side-IsValid w _ l h (running-IsSound (side_of w l) false (side_of-IsSound w l h)) (λ k. k)
Step-IsValid {l = l} (fetches w book p th) h =
    let (s, same) = sync_fetch-Keeps book (side_of w l) p th (side_of-IsSound w l h) in
    set_side-IsValid w _ l h s (λ k. same ∙ k)
Step-IsValid {l = l} (drains w th e) h =
    let (s, same) =
      sync_round-Keeps (l.buy.running && l.sell.running) (side_of w l) th (side_of-IsSound w l h)
        e in
    set_side-IsValid w _ l h s (λ k. same ∙ k)
Step-IsValid {l = l} (finishes w th) h =
    set_side-IsValid w _ l h (sync_finish-IsSound (side_of w l) th (side_of-IsSound w l h))
      (λ k. sync_finish-synced (side_of w l))
Step-IsValid {l = l} (joins st b s) h = join-IsValid l h
Step-IsValid {go = go} {l = l} (delivers x updates p e) h = message-IsValid go x updates l p h e

-- In every state that a run reaches, whichever threads take their turns: a book that is there is
-- sorted, a side that is synchronised has a book, the synchronisation of a side that has not ended
-- has a book and has not set its flag, and after the synchronisation both sides are synchronised.
pub Reach-IsValid :
    {go : Bool} {pair_id buy_exchange_id sell_exchange_id timest : ℕ} {l : Listener}
    → Reach go pair_id buy_exchange_id sell_exchange_id timest l
    → IsValid l
Reach-IsValid starts = new_listener-IsValid _ _ _ _
Reach-IsValid (steps r s) = Step-IsValid s (Reach-IsValid r)
