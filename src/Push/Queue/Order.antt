-- ===== src/Push/Queue/Order.antt =====
-- src/push_queue/io.rs: the number of a new item.
use agent_first_mail.Prelude.{
  ◌+◌, ◌≤◌, ◌<◌, String, ◌≡◌, some, [], ◌∷◌, arith, Map, lookup, values, eq_iff,
}
use agent_first_mail.Push.Item.{PushItem}
use agent_first_mail.Push.Queue.{max_seq, next_enqueue_seq}

max_seq_bound :
    (k : String) (queue : Map PushItem) (item : PushItem)
    → lookup k queue ≡ some item
    → item.enqueue_seq ≤ max_seq (values queue)
unfolding lookup max_seq
max_seq_bound k [] item e = absurd (cc)
max_seq_bound k ((j, other) ∷ queue) item e = ground (arith, eq_iff j k, max_seq_bound k queue item)

-- Below the 64-bit limit, a new item is behind every item of the queue.
pub next_enqueue_seq_last :
    (queue : Map PushItem) (k : String) (item : PushItem)
    → max_seq (values queue) + 1 < 18446744073709551616
    → lookup k queue ≡ some item
    → item.enqueue_seq < next_enqueue_seq queue
unfolding next_enqueue_seq
next_enqueue_seq_last queue k item small e = omega (arith, max_seq_bound k queue item e, small)
