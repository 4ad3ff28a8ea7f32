-- ===== src/Control/Servers.antt =====
-- `set_servers` of src/proxy_client.cc: which threads have a new client, also when it throws midway.
use memxy.Prelude.{ℕ, ◌+◌, ◌≡◌, Option, none, some, List, [], ◌∷◌, ◌++◌, length, drop}
use memxy.Control.{Fault, no_memory, Library, renew}

module _ {Servers Mc : Type 0} (lib : Library Servers Mc) (servers : Servers) where
  -- The clients `news` are those of the creations from the `i`-th on.
  abbrev pub Renews : ℕ → List Mc → Type 0
  Renews i [] = Unit {0}
  Renews i (mc ∷ news) = (renew lib servers i ≡ some mc) × Renews (i + 1) news

  -- How the loop ended behind the clients `news`.
  abbrev pub Ended : ℕ → List Mc → List Mc → Option Fault → Type 0
  Ended i olds news none = length news ≡ length olds
  Ended i olds news (some f) = (f ≡ no_memory) × (renew lib servers (i + length news) ≡ none)

  -- The first threads have new clients of these servers, the others the client that they had.
  abbrev pub Renewed : ℕ → List Mc → Option Fault × List Mc → Type 0
  Renewed i olds (f, ts) =
      (news : List Mc) × Renews i news
      × (ts ≡ news ++ drop (length news) olds)
      × Ended i olds news f
