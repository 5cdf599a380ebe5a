-- ===== src/Vex/Parse.antt =====
-- What a parsed VEX document guarantees.
use clusterproof.Prelude.{String, Bool, not, ◌&&◌, List, ◌==◌, nat_eq}
use clusterproof.Time.{zero_time}
use clusterproof.Vex.{Statement, is_status}

-- A statement that lacks nothing: it names a vulnerability and a product, its status is one of the
-- four, and it has a time.
abbrev pub is_complete : Statement → Bool
is_complete s =
    not (s.vulnerability == "")
    && not (s.product_purl == "")
    && is_status s.status
    && not (nat_eq s.timestamp zero_time)

abbrev openvex : String
openvex = "https://openvex.dev/ns"
