-- ===== src/Wide16/Effect.antt =====
-- The effect that storing a prefix has on a trie with a wide root, followed through the steps of
-- the code.
use liblpm.Base.{ℕ, ◌∙◌, Bool, Option}
use liblpm.Trie.{Bytes, Trie}
use liblpm.History.{Placed}
use liblpm.Wide16.Valid.{IsWide, wide_kind}
use liblpm.Wide16.Open.{Entered}

abbrev recounted : Trie → ℕ → Trie
recounted t n = record t { num_prefixes = n }

IsWide-recounted : (t : Trie) (n : ℕ) → IsWide t → IsWide (recounted t n)
IsWide-recounted t n wide = record {
  forest = record {
    tree = wide.forest.tree;
    no_dir24 = wide.forest.no_dir24;
    in_array = wide.forest.in_array;
    small = wide.forest.small;
  };
  words = wide.words;
  narrow = wide.narrow;
  strided = wide.strided;
  present = wide.present;
  depth = wide.depth;
}

-- The number of prefixes may change.
pub Placed-recounted :
    (t u : Trie) (d : ℕ) (matches : Bytes → Bool) (r : Option ℕ) (n : ℕ)
    → Placed wide_kind t d matches r u
    → Placed wide_kind t d matches r (record u { num_prefixes = n })
Placed-recounted t u d matches r n placed = record {
  sound = IsWide-recounted u n placed.sound;
  default = placed.default;
  hop = placed.hop;
  routes = placed.routes;
}

-- A store that follows the making of a node.
pub Placed-Entered :
    (t : Trie) (p : Bytes) (out : ℕ × Trie) (d : ℕ) (matches : Bytes → Bool) (r : Option ℕ)
    (v : Trie)
    → Entered t p out
    → Placed wide_kind out.1 d matches r v
    → Placed wide_kind t d matches r v
Placed-Entered t p out d matches r v entered placed = record {
  sound = placed.sound;
  default = placed.default ∙ entered.default;
  hop = placed.hop ∙ entered.hop;
  routes = λ a bytes k. rw (← entered.routes a k) (placed.routes a bytes k);
}

-- The default route, set or taken away.
pub IsWide-default :
    (t : Trie) (n nh : ℕ) (set : Bool)
    → IsWide t
    → IsWide (record t { num_prefixes = n; default_next_hop = nh; has_default_route = set })
IsWide-default t n nh set wide = record {
  forest = record {
    tree = wide.forest.tree;
    no_dir24 = wide.forest.no_dir24;
    in_array = wide.forest.in_array;
    small = wide.forest.small;
  };
  words = wide.words;
  narrow = wide.narrow;
  strided = wide.strided;
  present = wide.present;
  depth = wide.depth;
}
