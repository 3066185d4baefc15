-- ===== src/Proto/Codec.antt =====
-- The header of Proto.h as bytes, and `htonl` and `ntohl`.
use school_information_manag.Prelude.{ℕ, ◌<◌, ◌^◌, ◌≡◌, refl, arith, length}
use school_information_manag.Proto.{PacketHdr, hdr_bytes, hdr_of_bytes, hdr_size, htonl, ntohl}

pub length-hdr_bytes : (h : PacketHdr) → length (hdr_bytes h) ≡ hdr_size
unfolding hdr_bytes
length-hdr_bytes h = refl

pub hdr_of_bytes-hdr_bytes :
    (h : PacketHdr) → h.n_cmd < 2 ^ 16 → h.n_len < 2 ^ 32 → hdr_of_bytes (hdr_bytes h) ≡ h
unfolding hdr_bytes hdr_of_bytes
hdr_of_bytes-hdr_bytes h p q = ground arith

pub ntohl-htonl : (n : ℕ) → n < 2 ^ 32 → ntohl (htonl n) ≡ n
unfolding htonl ntohl
ntohl-htonl n h = omega arith

pub htonl-lt : (n : ℕ) → htonl n < 2 ^ 32
unfolding htonl
htonl-lt n = omega arith
