-- ===== src/Bridge/Tracked.antt =====
-- Which clients the bridge of Bridge/Server holds for its broadcasts.
use on_code.Prelude.{
  ℕ, suc, ◌<◌, ◌==◌, ◌≡◌, refl, sym, ap, ◌∙◌, false, none, List, [], ◌∷◌, ◌++◌, arith, All, All-map,
}
use on_code.Bridge.Server.{Client, has, without, find_client, remove_client, sockets}
use on_code.Bridge.Clients.{
  find-remove, clients_kept, waiting_kept, remove_below, without_apart, open_clients, open-hang_up,
  open-leave, open-other, open-shut,
}

-- What the bridge knows of its sockets.
pub record Held : Type 0 where
  pub conns : List Client
  pub loops : List Client
  pub waiting : List ℕ
  pub hung_up : List ℕ
  pub next : ℕ

-- The bridge holds, for its broadcasts, the clients whose goroutine reads on and whose socket it did not
-- close. A socket whose first frame is awaited is none of theirs, and a number is given once.
pub record IsTracked (k : Held) : Type 0 where
  pub conns_open : k.conns ≡ open_clients k.hung_up k.loops
  pub waiting_free : All (λ n. find_client n k.loops ≡ none) k.waiting
  pub waiting_below : All (λ n. n < k.next) k.waiting
  pub loops_below : All (λ c. c.socket < k.next) k.loops

-- a socket that no client has is closed
pub refused-IsTracked :
    (n : ℕ) (k : Held)
    → find_client n k.loops ≡ none
    → IsTracked k
    → IsTracked (record k { hung_up = n ∷ k.hung_up })
refused-IsTracked n k f h = record {
  conns_open = h.conns_open ∙ sym (open-other n k.hung_up k.loops f);
  waiting_free = h.waiting_free;
  waiting_below = h.waiting_below;
  loops_below = h.loops_below;
}

free_after :
    (c : Client) (loops : List Client) (m : ℕ)
    → ((c.socket == m) ≡ false) × (find_client m loops ≡ none)
    → find_client m (c ∷ loops) ≡ none
unfolding find_client
free_after c loops m h = rw h.0 h.1

-- a client that is registered, behind the removal of its socket from those that wait
pub entered-IsTracked :
    (c : Client) (k : Held)
    → has c.socket k.hung_up ≡ false
    → c.socket < k.next
    → IsTracked k
    → IsTracked (record k {
      conns = c ∷ k.conns;
      loops = c ∷ k.loops;
      waiting = without c.socket k.waiting;
    })
unfolding open_clients
entered-IsTracked c k free below h = record {
  conns_open = rw (free, h.conns_open) refl;
  waiting_free =
      All-map (free_after c k.loops) (without c.socket k.waiting)
        (without_apart (λ m. find_client m k.loops ≡ none) c.socket k.waiting h.waiting_free);
  waiting_below = waiting_kept (λ m. m < k.next) c.socket k.waiting h.waiting_below;
  loops_below = (below, h.loops_below);
}

-- a client that leaves, by its socket
pub left-IsTracked :
    (n : ℕ) (k : Held)
    → IsTracked k
    → IsTracked (record k {
      conns = remove_client n k.conns;
      loops = remove_client n k.loops;
      hung_up = n ∷ k.hung_up;
    })
left-IsTracked n k h = record {
  conns_open = ap (remove_client n) h.conns_open ∙ sym (open-leave n k.hung_up k.loops);
  waiting_free = All-map (λ m e. find-remove m n k.loops e) k.waiting h.waiting_free;
  waiting_below = h.waiting_below;
  loops_below = clients_kept (λ c. c.socket < k.next) n k.loops h.loops_below;
}

pub waiting_less :
    (n : ℕ) (k : Held) → IsTracked k → IsTracked (record k { waiting = without n k.waiting })
waiting_less n k h = record {
  conns_open = h.conns_open;
  waiting_free = waiting_kept (λ m. find_client m k.loops ≡ none) n k.waiting h.waiting_free;
  waiting_below = waiting_kept (λ m. m < k.next) n k.waiting h.waiting_below;
  loops_below = h.loops_below;
}

-- a client whose registered frame did not go out
pub dropped-IsTracked :
    (c : Client) (k : Held)
    → IsTracked k
    → IsTracked
        (record k { conns = remove_client c.socket (c ∷ k.conns); hung_up = c.socket ∷ k.hung_up })
unfolding remove_client
dropped-IsTracked c k h = record {
  conns_open = ground (arith, h.conns_open, open-hang_up c.socket k.hung_up k.loops);
  waiting_free = h.waiting_free;
  waiting_below = h.waiting_below;
  loops_below = h.loops_below;
}

pub shut-IsTracked :
    (k : Held)
    → IsTracked k
    → IsTracked (record k { conns = []; hung_up = sockets k.conns ++ k.hung_up })
shut-IsTracked k h = record {
  conns_open =
      sym (open-shut k.hung_up k.loops)
      ∙ ap (λ cs. open_clients (sockets cs ++ k.hung_up) k.loops) (sym h.conns_open);
  waiting_free = h.waiting_free;
  waiting_below = h.waiting_below;
  loops_below = h.loops_below;
}

below_later : (k : ℕ) (n : ℕ) → n < k → n < suc k
below_later k n h = omega (arith, h)

pub later-IsTracked : (k : Held) → IsTracked k → IsTracked (record k { next = suc k.next })
later-IsTracked k h = record {
  conns_open = h.conns_open;
  waiting_free = h.waiting_free;
  waiting_below = All-map (below_later k.next) k.waiting h.waiting_below;
  loops_below = All-map (λ c. below_later k.next c.socket) k.loops h.loops_below;
}

pub opened-IsTracked :
    (k : Held)
    → IsTracked k
    → IsTracked (record k { next = suc k.next; waiting = k.next ∷ k.waiting })
opened-IsTracked k h =
    let later = later-IsTracked k h in
    record {
      conns_open = h.conns_open;
      waiting_free = (remove_below k.next k.loops h.loops_below, h.waiting_free);
      waiting_below = (omega arith, later.waiting_below);
      loops_below = later.loops_below;
    }
