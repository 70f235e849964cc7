-- ===== src/Log/Framing.antt =====
-- What a log line holds, whichever way it is written (internal/log/log.go, Logv).
use mathlib.Core.List.{append_assoc, append-nil}
use snap_gs.Base.{
  ◌≡◌, refl, sym, ap, ◌∙◌, inl, inr, Bytes, true, List, [], ◌∷◌, ◌++◌, Option, none, some,
  if◌then◌else◌, Bool-cases,
}
use snap_gs.Base.{◌+◌, ltb, length, arith}
use snap_gs.Log.{
  at_once, buffer_size, bytes_of, Prefix, is_line, head_of, front, new_line, fits, chunks,
  ends_present, all_bytes, by_parts, logv,
}

-- All that is written, in order.
abbrev pub written : List Bytes → Bytes
written [] = []
written (bs ∷ rest) = bs ++ written rest

-- The line is closed unless its last chunk is nil.
abbrev pub closing : List (Option Bytes) → Bytes
closing [] = new_line
closing (chunk ∷ rest) = if ends_present (chunk ∷ rest) then new_line else []

written-append : (xs ys : List Bytes) → written (xs ++ ys) ≡ written xs ++ written ys
written-append [] ys = refl
written-append (x ∷ xs) ys =
    ap (◌++◌ x) (written-append xs ys) ∙ sym (append_assoc x (written xs) (written ys))

written-chunks : (iov : List (Option Bytes)) → written (chunks iov) ≡ all_bytes iov
unfolding chunks
written-chunks [] = refl
written-chunks (none ∷ rest) = written-chunks rest
written-chunks (some [] ∷ rest) = written-chunks rest
written-chunks (some (c ∷ bs) ∷ rest) = ap (◌++◌ (c ∷ bs)) (written-chunks rest)

written-by_parts :
    (p : Prefix) (uptime : Bytes) (iov : List (Option Bytes))
    → written (by_parts p uptime iov)
      ≡ front p uptime ++ (all_bytes iov ++ (if ends_present iov then new_line else []))
unfolding by_parts front
written-by_parts p uptime iov = elim (Bool-cases (is_line p)) [
  | inl plain ↦ rw plain (parts_end iov)
  | inr marked ↦ rw marked (ap (◌++◌ (head_of p uptime)) (parts_end iov))
]
  where
    parts_end :
        (js : List (Option Bytes))
        → written (chunks js ++ (if ends_present js then new_line ∷ [] else []))
          ≡ all_bytes js ++ (if ends_present js then new_line else [])
    parts_end js = written-append (chunks js) _ ∙ elim (Bool-cases (ends_present js)) [
      | inl there ↦ rw there (ap (λ bs. bs ++ new_line) (written-chunks js))
      | inr missing ↦ rw missing (ap (λ bs. bs ++ []) (written-chunks js))
    ]

fits-ends_present : (iov : List (Option Bytes)) → fits iov ≡ true → ends_present iov ≡ true
unfolding fits ends_present
fits-ends_present [] h = cc
fits-ends_present (none ∷ []) h = cc
fits-ends_present (some bs ∷ []) h = refl
fits-ends_present (x ∷ y ∷ rest) h = cc

-- What fits the buffer is at most 1004 bytes, so that its newline is the last of the buffer or before it.
fits-at_once :
    (p : Prefix) (uptime : Bytes) (iov : List (Option Bytes))
    → fits iov ≡ true
    → at_once p uptime (all_bytes iov) ≡ some ((front p uptime ++ (all_bytes iov ++ new_line)) ∷ [])
unfolding fits at_once
fits-at_once p uptime [] h = cc
fits-at_once p uptime (chunk ∷ []) h =
    rw (append-nil (bytes_of chunk))
      (elim (Bool-cases (ltb (19 + length (bytes_of chunk)) buffer_size)) [
        | inl room ↦ rw room refl
        | inr full ↦ absurd (ground arith)
      ])
fits-at_once p uptime (x ∷ y ∷ rest) h = cc

-- `Logv` does not panic. Whether a line fits the buffer of 1024 bytes and goes out in one write, or goes
-- out in parts, the same bytes are written: the front, the chunks in order, and a newline unless the last
-- chunk is nil.
pub logv-written :
    (p : Prefix) (uptime : Bytes) (iov : List (Option Bytes))
    → (writes : List Bytes) × (logv p uptime iov ≡ some writes)
      × (written writes ≡ front p uptime ++ (all_bytes iov ++ closing iov))
unfolding logv
logv-written p uptime [] = (_, refl, append-nil _)
logv-written p uptime (chunk ∷ rest) = elim (Bool-cases (fits (chunk ∷ rest))) [
  | inl one ↦ (
    (front p uptime ++ (all_bytes (chunk ∷ rest) ++ new_line)) ∷ [],
    rw (logv, one) (fits-at_once p uptime (chunk ∷ rest) one),
    rw (fits-ends_present (chunk ∷ rest) one) (append-nil _),
  )
  | inr several ↦ (
    by_parts p uptime (chunk ∷ rest),
    rw (logv, several) refl,
    written-by_parts p uptime (chunk ∷ rest),
  )
]
