-- ===== src/Gate/Tests.antt =====
-- Requests on a small client, for the handlers of src/gate_memtext_retrieval.cc and its neighbours.
use memxy.Prelude.{ℕ, ◌^◌, List, [], ◌∷◌, some, ltb, ltb→lt, replicate, length-replicate}
use memxy.Store.{Allocator}
use memxy.Gate.{Client, Fetched, success, not_found}

abbrev plain : Allocator
plain = record {
  grants = λ n. ltb n (2 ^ 62);
  junk = λ n. replicate n 0;
  grants_small = λ n h. ltb→lt n (2 ^ 62) h;
  length-junk = λ n. length-replicate n 0;
}

-- A client library of one cell, whose keys all name it: the value and its flags.
abbrev Cell : Type 0
Cell = List ℕ × ℕ

abbrev of_cell : List ℕ → Cell → Fetched
of_cell k (v, f) = record { key = k; val = some v; flags = f; error = success }

abbrev cell : Client Cell
cell = record {
  get = λ k s. (of_cell k s, s);
  mget = λ ks s. (success, s);
  fetch = λ k s. (of_cell k s, s);
  set = λ k v e f s. (success, (v, f));
  delete = λ k e s. (not_found, s);
}

abbrev two_keys : List (List ℕ)
two_keys = (97 ∷ []) ∷ (98 ∷ 99 ∷ []) ∷ []

abbrev start : Cell
start = (120 ∷ 121 ∷ [], 5)
