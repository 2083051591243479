-- ===== src/Bridge/Clients.antt =====
-- The sockets and the clients that the bridge of Bridge/Server keeps in lists.
use on_code.Prelude.{
  ℕ, ◌<◌, ◌==◌, ◌≡◌, refl, Bool, true, false, none, some, List, [], ◌∷◌, ◌++◌, arith, All, All-map,
  if◌then◌else◌,
}
use on_code.Bridge.Server.{Client, has, without, find_client, remove_client, sockets}

pub waiting_kept : (P : ℕ → Type 0) (n : ℕ) (ns : List ℕ) → All P ns → All P (without n ns)
unfolding without
waiting_kept P n [] h = tt
waiting_kept P n (m ∷ ms) h = ground (arith, waiting_kept P n ms h.1)

pub clients_kept :
    (P : Client → Type 0) (n : ℕ) (cs : List Client) → All P cs → All P (remove_client n cs)
unfolding remove_client
clients_kept P n [] h = tt
clients_kept P n (c ∷ cs) h = ground (arith, clients_kept P n cs h.1)

pub waiting_has : (P : ℕ → Type 0) (n : ℕ) (ns : List ℕ) → All P ns → has n ns ≡ true → P n
unfolding has
waiting_has P n [] h e = cc
waiting_has P n (m ∷ ms) h e = ground (arith, waiting_has P n ms h.1)

pub found_has :
    (P : Client → Type 0) (n : ℕ) (cs : List Client) (c : Client)
    → All P cs
    → find_client n cs ≡ some c
    → P c
unfolding find_client
found_has P n [] c h e = cc
found_has P n (d ∷ cs) c h e = ground (arith, found_has P n cs c h.1)

-- A client that is not found is none of the list, and a removal does not bring it in.
pub find-remove :
    (m n : ℕ) (cs : List Client)
    → find_client m cs ≡ none
    → find_client m (remove_client n cs) ≡ none
unfolding find_client remove_client
find-remove m n [] h = refl
find-remove m n (c ∷ cs) h = ground (arith, find-remove m n cs)

pub remove_below : (k : ℕ) (cs : List Client) → All (λ c. c.socket < k) cs → find_client k cs ≡ none
unfolding find_client
remove_below k [] h = refl
remove_below k (c ∷ cs) h = ground (arith, remove_below k cs h.1)

-- a socket that is left is another one
pub without_apart :
    (P : ℕ → Type 0) (n : ℕ) (ns : List ℕ)
    → All P ns
    → All (λ m. ((n == m) ≡ false) × P m) (without n ns)
unfolding without
without_apart P n [] h = tt
without_apart P n (m ∷ ms) h = ground (arith, without_apart P n ms h.1)

-- The clients whose socket is not among those closed.
unfoldable pub open_clients : List ℕ → List Client → List Client
open_clients hung [] = []
open_clients hung (c ∷ cs) =
    let rest = open_clients hung cs in if has c.socket hung then rest else c ∷ rest

pub open_not_hung :
    (hung : List ℕ) (cs : List Client) → All (λ c. has c.socket hung ≡ false) (open_clients hung cs)
unfolding open_clients
open_not_hung hung [] = tt
open_not_hung hung (c ∷ cs) = ground (arith, open_not_hung hung cs)

-- a closed socket is removed
pub open-hang_up :
    (n : ℕ) (hung : List ℕ) (cs : List Client)
    → open_clients (n ∷ hung) cs ≡ remove_client n (open_clients hung cs)
unfolding open_clients remove_client has
open-hang_up n hung [] = refl
open-hang_up n hung (c ∷ cs) = ground (arith, open-hang_up n hung cs)

pub open-leave :
    (n : ℕ) (hung : List ℕ) (cs : List Client)
    → open_clients (n ∷ hung) (remove_client n cs) ≡ remove_client n (open_clients hung cs)
unfolding open_clients remove_client has
open-leave n hung [] = refl
open-leave n hung (c ∷ cs) = ground (arith, open-leave n hung cs)

-- a socket that no client has changes nothing
pub open-other :
    (n : ℕ) (hung : List ℕ) (cs : List Client)
    → find_client n cs ≡ none
    → open_clients (n ∷ hung) cs ≡ open_clients hung cs
unfolding open_clients find_client has
open-other n hung [] h = refl
open-other n hung (c ∷ cs) h = ground (arith, open-other n hung cs)

none_open :
    (hung : List ℕ) (cs : List Client)
    → All (λ c. has c.socket hung ≡ true) cs
    → open_clients hung cs ≡ []
unfolding open_clients
none_open hung [] h = refl
none_open hung (c ∷ cs) h = rw h.0 (none_open hung cs h.1)

has-append : (n : ℕ) (hung ns : List ℕ) → has n hung ≡ true → has n (ns ++ hung) ≡ true
unfolding has
has-append n hung [] h = h
has-append n hung (m ∷ ms) h = ground (arith, has-append n hung ms h)

open_first :
    (c : Client) (hung : List ℕ) (cs : List Client)
    → open_clients hung (c ∷ cs)
      ≡ (if has c.socket hung then open_clients hung cs else c ∷ open_clients hung cs)
unfolding open_clients
open_first c hung cs = refl

Covered : List ℕ → List Client → List Client → Type 0
Covered hung left cs = All (λ c. has c.socket (sockets left ++ hung) ≡ true) cs

covers_one :
    (c : Client) (hung : List ℕ) (cs : List Client) (hangs : Bool)
    → has c.socket hung ≡ hangs
    → Covered hung (open_clients hung cs) cs
    → Covered hung (if hangs then open_clients hung cs else c ∷ open_clients hung cs) (c ∷ cs)
unfolding Covered sockets has
covers_one c hung cs true e h = (has-append c.socket hung (sockets (open_clients hung cs)) e, h)
covers_one c hung cs false e h = (ground arith, All-map (λ d k. ground (arith, k)) cs h)

covers : (hung : List ℕ) (cs : List Client) → Covered hung (open_clients hung cs) cs
unfolding Covered open_clients has
covers hung [] = tt
covers hung (c ∷ cs) =
    rw (open_first c hung cs) (covers_one c hung cs (has c.socket hung) refl (covers hung cs))

-- all the clients that are open closed, none is
pub open-shut :
    (hung : List ℕ) (cs : List Client)
    → open_clients (sockets (open_clients hung cs) ++ hung) cs ≡ []
unfolding Covered
open-shut hung cs = none_open (sockets (open_clients hung cs) ++ hung) cs (covers hung cs)
