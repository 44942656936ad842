-- ===== src/Resolution/Hashes.antt =====
-- The hashes of resolutions and of sets of them, in src/core/name_resolution.cpp.
use mathlib.Core.List.{Perm}
use mathlib.Core.List.Perm
use neta_agent.Prelude.{
  ℕ, ◌≡◌, ap, Option, none, some, List, [], ◌∷◌, ◌++◌, map, Text, bytes, value_or, int_to_string, ℤ,
}
use neta_agent.Prelude.Decimal.{to_string}
use neta_agent.Prelude.Sort.{sort, sort-Perm}
use neta_agent.Crypto.{Sha256, sha256_hex}
use neta_agent.Crypto.SetHash.{set_hash, set_hash-Perm}
use neta_agent.Model.{NetworkAddressFamily}
use neta_agent.Model.Names.{fidelity_to_string}
use neta_agent.Resolution.{NameResolutionAddress, NameResolutionEvidence}
use neta_agent.Resolution.Names.{query_kind_to_string, mechanism_to_string, relation_to_string}

abbrev pub optional_i64 : Option ℤ → Text
optional_i64 none = []
optional_i64 (some n) = int_to_string n

abbrev pub optional_u64 : Option ℕ → Text
optional_u64 none = []
optional_u64 (some n) = to_string n

abbrev pub family_number : NetworkAddressFamily → Text
family_number NetworkAddressFamily.unknown = bytes "0"
family_number NetworkAddressFamily.ipv4 = bytes "1"
family_number NetworkAddressFamily.ipv6 = bytes "2"

abbrev pub address_text : NameResolutionAddress → Text
address_text a = family_number a.family ++ bytes ":" ++ a.address

-- `|` before each address.
unfoldable pub with_addresses : Text → List Text → Text
with_addresses material [] = material
with_addresses material (a ∷ rest) = with_addresses (material ++ bytes "|" ++ a) rest

abbrev bar : Text
bar = bytes "|"

unfoldable pub material : NameResolutionEvidence → Text
unfolding query_kind_to_string mechanism_to_string relation_to_string to_string
material e =
    let o = e.observation in
    to_string o.started_ns
    ++ bar
    ++ to_string o.completed_ns
    ++ bar
    ++ query_kind_to_string o.query_kind
    ++ bar
    ++ mechanism_to_string o.mechanism
    ++ bar
    ++ o.query_name
    ++ bar
    ++ value_or o.canonical_name []
    ++ bar
    ++ o.source
    ++ bar
    ++ optional_i64 o.result_code
    ++ bar
    ++ fidelity_to_string o.fidelity
    ++ bar
    ++ fidelity_to_string e.correlation_fidelity
    ++ bar
    ++ relation_to_string e.relation
    ++ bar
    ++ optional_i64 o.process.agent_visible.pid
    ++ bar
    ++ optional_i64 o.process.agent_visible.tgid
    ++ bar
    ++ optional_i64 o.process.kernel.pid
    ++ bar
    ++ optional_i64 o.process.kernel.tgid
    ++ bar
    ++ optional_u64 o.process.uid
    ++ bar
    ++ optional_u64 o.process.start_ticks
    ++ bar
    ++ value_or o.process.comm []
    ++ bar
    ++ optional_u64 o.network_namespace_inode

-- The same resolution, with these addresses.
abbrev pub with_list : List NameResolutionAddress → NameResolutionEvidence → NameResolutionEvidence
with_list addresses e = record e { observation = record (e.observation) { addresses = addresses } }

module _ (sha : Sha256) where
  unfoldable pub name_resolution_evidence_hash : NameResolutionEvidence → Text
  unfolding material with_addresses sort sha256_hex
  name_resolution_evidence_hash e =
      sha256_hex sha (with_addresses (material e) (sort (map address_text e.observation.addresses)))

  unfoldable pub name_resolution_evidence_set_hash : List NameResolutionEvidence → Text
  unfolding set_hash name_resolution_evidence_hash
  name_resolution_evidence_set_hash es = set_hash sha name_resolution_evidence_hash es

  -- The hash of a resolution does not depend on the order of its addresses, and the hash of a set of
  -- resolutions does not depend on the order in which they come.
  pub resolution_hash-Perm :
      (e : NameResolutionEvidence) (xs ys : List NameResolutionAddress)
      → (es fs : List NameResolutionEvidence) → Perm xs ys
      → Perm es fs
      → (name_resolution_evidence_hash (with_list xs e)
          ≡ name_resolution_evidence_hash (with_list ys e))
        × (name_resolution_evidence_set_hash es ≡ name_resolution_evidence_set_hash fs)
  unfolding name_resolution_evidence_set_hash name_resolution_evidence_hash material
  resolution_hash-Perm e xs ys es fs d c = (
    ap (λ addresses. sha256_hex sha (with_addresses (material (with_list xs e)) addresses))
        (sort-Perm (Perm.map address_text d)),
    set_hash-Perm sha name_resolution_evidence_hash es fs c,
  )
