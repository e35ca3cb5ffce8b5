-- ===== src/Beacon/Flow.antt =====
-- crates/kavach-beacon/src/flow.rs: packets, flows' keys, the window of 32 packets, and its matrix.
-- The floating-point numbers are an argument.
use kavach_npu.Prelude.{
  ℕ, ◌+◌, ◌-◌, ◌%◌, ◌^◌, ◌≡◌, ◌↔◌, min, Bool, true, false, ◌&&◌, List, [], ◌∷◌, Option, none, some,
  ltb, ◌==◌, if◌then◌else◌, length, get_or, arith,
}
use kavach_npu.Prelude.Bytes.{bytes_eq, bytes_eq_iff}
use kavach_npu.Prelude.Dict.{Eq}
use kavach_npu.Prelude.Float.{Floats}
use kavach_npu.Prelude.Windows.{push_window}

abbrev pub flow_window_size : ℕ
flow_window_size = 32

pub data PacketDirection : Type 0 where
  outbound inbound : PacketDirection

pub record PacketMeta : Type 0 where
  pub timestamp_ns : ℕ
  pub payload_bytes : ℕ
  pub direction : PacketDirection

-- `std::net::IpAddr`: an address of 4 bytes or of 16.
pub data IpAddr : Type 0 where
  v4 : List ℕ → IpAddr
  v6 : List ℕ → IpAddr

pub record FlowKey : Type 0 where
  pub local_addr : IpAddr
  pub local_port : ℕ
  pub remote_addr : IpAddr
  pub remote_port : ℕ
  pub protocol : ℕ

ip_eq : IpAddr → IpAddr → Bool
ip_eq (v4 a) (v4 b) = bytes_eq a b
ip_eq (v4 a) (v6 b) = false
ip_eq (v6 a) (v4 b) = false
ip_eq (v6 a) (v6 b) = bytes_eq a b

ip_eq_iff : (a b : IpAddr) → (ip_eq a b ≡ true) ↔ (a ≡ b)
unfolding ip_eq
ip_eq_iff (v4 a) (v4 b) = ground (arith, bytes_eq_iff a b)
ip_eq_iff (v4 a) (v6 b) = ground arith
ip_eq_iff (v6 a) (v4 b) = ground arith
ip_eq_iff (v6 a) (v6 b) = ground (arith, bytes_eq_iff a b)

-- The derived `PartialEq`, by which the map of flows finds its keys.
unfoldable pub key_eq : FlowKey → FlowKey → Bool
unfolding ip_eq
key_eq a b =
    ip_eq a.local_addr b.local_addr
    && (a.local_port == b.local_port
        && (ip_eq a.remote_addr b.remote_addr
            && (a.remote_port == b.remote_port && a.protocol == b.protocol)))

pub key_eq_iff : (a b : FlowKey) → (key_eq a b ≡ true) ↔ (a ≡ b)
unfolding key_eq
key_eq_iff a b =
    ground (arith, ip_eq_iff a.local_addr b.local_addr, ip_eq_iff a.remote_addr b.remote_addr)

instance abbrev pub flow_key : Eq FlowKey
flow_key = record { beq = key_eq; beq_iff = key_eq_iff }

pub record RollingFlow : Type 0 where
  pub packets : List PacketMeta
  pub total_packets_seen : ℕ

unfoldable pub new_flow : RollingFlow
new_flow = record { packets = []; total_packets_seen = 0 }

unfoldable pub is_full : RollingFlow → Bool
is_full f = length f.packets == flow_window_size

-- The counter is a `u64`, which wraps in a release build. The result says that the window is full.
unfoldable pub record_packet : RollingFlow → PacketMeta → RollingFlow × Bool
record_packet f meta =
    let packets = push_window flow_window_size f.packets meta in
    (
      record { packets = packets; total_packets_seen = (f.total_packets_seen + 1) % 2 ^ 64 },
      length packets == flow_window_size,
    )

module _ (fl : Floats) where
  open fl use {double, single, narrow}

  -- The milliseconds since the packet before; the first packet has none before it.
  abbrev pub delta_ms : Option ℕ → PacketMeta → double.F
  delta_ms none p = double.lit 0 0
  delta_ms (some before) p =
      double.div (double.of_nat (p.timestamp_ns - before)) (double.lit 10000000 1)

  abbrev pub direction_feature : PacketDirection → single.F
  direction_feature outbound = single.lit 10 1
  direction_feature inbound = single.neg (single.lit 10 1)

  abbrev pub packet_row : ℕ → single.F → Option ℕ → PacketMeta → List single.F
  packet_row first_ts span before p =
      narrow (
        double.clamp
          (double.div (double.log10 (double.add (double.lit 10 1) (delta_ms before p)))
            (double.lit 50 1))
          (double.lit 0 0) (double.lit 10 1))
      ∷ single.clamp (single.div (single.of_nat (min p.payload_bytes 1500)) (single.lit 15000 1))
          (single.lit 0 0) (single.lit 10 1)
      ∷ direction_feature p.direction
      ∷ single.clamp (single.div (single.of_nat (p.timestamp_ns - first_ts)) span) (single.lit 0 0)
          (single.lit 10 1)
      ∷ []

  unfoldable pub packet_rows : ℕ → single.F → Option ℕ → List PacketMeta → List (List single.F)
  packet_rows first_ts span before [] = []
  packet_rows first_ts span before (p ∷ ps) =
      packet_row first_ts span before p ∷ packet_rows first_ts span (some p.timestamp_ns) ps

  -- `.max(1) as f32`
  abbrev pub span_of : ℕ → ℕ → single.F
  span_of first_ts last_ts =
      single.of_nat (if ltb (last_ts - first_ts) 1 then 1 else last_ts - first_ts)

  -- The rows of a full window; an empty one has no first packet to index.
  unfoldable pub window_matrix : List PacketMeta → Option (List (List single.F))
  window_matrix [] = none
  window_matrix (p ∷ ps) =
      let first_ts = p.timestamp_ns in
      let last_ts = (get_or (p ∷ ps) (flow_window_size - 1) p).timestamp_ns in
      some (packet_rows first_ts (span_of first_ts last_ts) none (p ∷ ps))

  unfoldable pub build_flow_matrix : RollingFlow → Option (List (List single.F))
  build_flow_matrix f = if is_full f then window_matrix f.packets else none
