-- ===== src/Sync/Reply/Accepted.antt =====
-- src/mongo-sync.c: what holds of a reply that was taken.
use libmongo_client.Base.{
  ℕ, ◌≡◌, ◌≢◌, refl, false, some, Bool-cases, ◌==◌, inl, inr, subst, ==→eq, ==→ne,
}
use libmongo_client.Base.Call.{returns, Call-cases}
use libmongo_client.Base.Run.{gives, Run-cases}
use libmongo_client.Wire.Packet.{Packet}
use libmongo_client.Wire.Reply.{ReplyHeader, reply_get_header}
use libmongo_client.Client.{Net}
use libmongo_client.Client
use libmongo_client.Sync.Connection.{SyncConn}
use libmongo_client.Sync.Reply.{has_flag, accept_reply, packet_recv}

-- A reply to this request, with documents and without the flag.
abbrev pub Answers : ℕ → ℕ → Packet → Type 0
Answers rid flag p =
    (p.header.resp_to ≡ rid)
    × (h : ReplyHeader) × (reply_get_header (some p) ≡ returns h)
    × (has_flag h.flags flag ≡ false)
    × (h.returned ≢ 0)

accept_reply-Answers :
    (p q : Packet) (rid flag : ℕ)
    → accept_reply p rid flag ≡ returns q
    → (q ≡ p) × Answers rid flag p
unfolding accept_reply
accept_reply-Answers p q rid flag = elim (Bool-cases (p.header.resp_to == rid)) [
  | inr b ↦ rw b (λ e. cc)
  | inl b ↦ elim (Call-cases (reply_get_header (some p))) [
    | inr (inl (e, h)) ↦ rw (b, h) (λ e. cc)
    | inr (inr h) ↦ rw (b, h) (λ e. cc)
    | inl (h, eh) ↦ elim (Bool-cases (has_flag h.flags flag)) [
      | inl f ↦ rw (b, eh) (rw f (λ e. cc))
      | inr f ↦ elim (Bool-cases (h.returned == 0)) [
        | inl z ↦ rw (b, eh) (rw (f, z) (λ e. cc))
        | inr z ↦ rw (b, eh) (rw (f, z) (λ e. (cc, (==→eq _ _ b, h, refl, f, ==→ne _ _ z))))
      ]
    ]
  ]
]

-- A packet that `_mongo_sync_packet_recv` returns is a reply to the request that it was called for,
-- its header can be read, the flag of failure is not set in it, and it has documents.
pub packet_recv-Answers :
    {W : Type 0} (net : Net W) (rid flag : ℕ) (c : SyncConn) (w : W) (p : Packet) (s : SyncConn × W)
    → packet_recv net rid flag c w ≡ gives p s
    → Answers rid flag p
unfolding packet_recv
packet_recv-Answers net rid flag c w p s = elim (Run-cases (Client.packet_recv net c.super w)) [
  | inr (inl (e, w', h)) ↦ rw (h, packet_recv) (λ e. cc)
  | inr (inr (inl h)) ↦ rw (h, packet_recv) (λ e. cc)
  | inr (inr (inr h)) ↦ rw (h, packet_recv) (λ e. cc)
  | inl (q, w', h) ↦ elim (Call-cases (accept_reply q rid flag)) [
    | inr (inl (e, a)) ↦ rw (h, packet_recv) (rw (a, packet_recv) (λ e. cc))
    | inr (inr a) ↦ rw (h, packet_recv) (rw (a, packet_recv) (λ e. cc))
    | inl (r, a) ↦
        rw (h, packet_recv)
          (rw (a, packet_recv)
            λ e.
              let (same, answers) = accept_reply-Answers q r rid flag a in
              let taken : q ≡ p = cc in subst (Answers rid flag) taken answers)
  ]
]
