-- ===== src/Windows/Service/Input.antt =====
-- src/windows-service-entry.ts: what is left in the buffer, and that a stopped entry starts nothing.
use agentv.Base.{
  ℕ, zero, suc, ◌+◌, ◌≤◌, ◌≡◌, refl, ap, inl, inr, List, [], ◌∷◌, Bool, true, false, ◌||◌, ◌==◌,
  nat_eq, Option, none, some, arith, length, ltb, leb, Bool-cases, Option-cases,
}
use agentv.Windows.Service.Protocol.{is_done}
use agentv.Windows.Service.{
  Codec, Command, start_command, stop_command, ServiceEntry, bounded_stop, request_stop, fail,
  on_command, cut_line, line_limit, next_line, consume, input_limit, on_data,
}

length-cut_line :
    (bs line after : List ℕ) → cut_line bs ≡ some (line, after) → suc (length after) ≤ length bs
length-cut_line [] line after h = cc
length-cut_line (b ∷ bs) line after h = elim (Bool-cases (b == 10)) [
  | inl newline ↦ ground (arith, h)
  | inr other ↦ elim (Option-cases (cut_line bs)) [
    | inl none_left ↦ cc (rw (other, none_left) at h)
    | inr ((l, a), cut) ↦ ground (arith, length-cut_line bs l a cut)
  ]
]

-- What a callback of the input leaves: a settled entry, or an open line within the limit.
abbrev pub is_open_line : List ℕ → Option (List ℕ × List ℕ) → Bool
is_open_line buffer none = leb (length buffer) line_limit
is_open_line buffer (some _) = false

abbrev pub is_read : ServiceEntry → Bool
is_read e = is_done e || is_open_line e.buffer (cut_line e.buffer)

fail_done : (e : ServiceEntry) → is_done (fail e) ≡ true
unfolding fail request_stop bounded_stop
fail_done e = ground arith

fail_read : (e : ServiceEntry) → is_read (fail e) ≡ true
fail_read e = rw (fail_done e) refl

-- a command that lets the loop go on leaves the buffer
on_command_buffer :
    (command : Option Command) (e : ServiceEntry)
    → (on_command command e).0 ≡ true
    → (on_command command e).1.buffer ≡ e.buffer
unfolding on_command fail request_stop bounded_stop
on_command_buffer none e h = cc
on_command_buffer (some stop_command) e h = ground arith
on_command_buffer (some (start_command directory launch)) e h = ground arith

on_command_done :
    (command : Option Command) (e : ServiceEntry)
    → (on_command command e).0 ≡ false
    → is_done ((on_command command e).1) ≡ true
unfolding on_command
on_command_done none e h = fail_done e
on_command_done (some stop_command) e h = cc
on_command_done (some (start_command directory launch)) e h =
    elim (Bool-cases (e.started || e.stop_requested)) [
      | inl late ↦ rw late (fail_done e)
      | inr fresh ↦ cc (rw (on_command, fresh) at h)
    ]

next_line_buffer :
    (c : Codec) (e : ServiceEntry)
    → (next_line c e).0 ≡ true
    → suc (length (next_line c e).1.buffer) ≤ length e.buffer
unfolding next_line
next_line_buffer c e h = elim (Option-cases (cut_line e.buffer)) [
  | inl open_line ↦ cc (rw (next_line, open_line) at h)
  | inr ((line, after), cut) ↦ elim (Bool-cases (ltb line_limit (length line))) [
    | inl long ↦ cc (rw (next_line, cut, long) at h)
    | inr short ↦
        let d = record e { buffer = after } in
        rw (next_line, cut, short)
          (omega (
            arith,
            length-cut_line e.buffer line after cut,
            ap length (on_command_buffer _ d (rw (next_line, cut, short) at h)),
          ))
  ]
]

next_line_read :
    (c : Codec) (e : ServiceEntry) → (next_line c e).0 ≡ false → is_read ((next_line c e).1) ≡ true
unfolding next_line
next_line_read c e h = elim (Option-cases (cut_line e.buffer)) [
  | inl open_line ↦ elim (Bool-cases (ltb line_limit (length e.buffer))) [
    | inl long ↦ rw (next_line, open_line, long) (fail_read e)
    | inr short ↦ rw (next_line, open_line, short) (ground (arith, open_line, short))
  ]
  | inr ((line, after), cut) ↦ elim (Bool-cases (ltb line_limit (length line))) [
    | inl long ↦ rw (next_line, cut, long) (fail_read e)
    | inr short ↦
        let d = record e { buffer = after } in
        let settled = on_command_done _ d (rw (next_line, cut, short) at h) in
        rw (next_line, cut, short) (rw settled refl)
  ]
]

-- one unit of fuel more than bytes is enough
consume_read :
    (c : Codec) (n : ℕ) (e : ServiceEntry)
    → suc (length e.buffer) ≤ n
    → is_read (consume c n e) ≡ true
unfolding consume
consume_read c zero e enough = absurd (omega (arith, enough))
consume_read c (suc n) e enough = elim (Bool-cases ((next_line c e).0)) [
  | inl more ↦
      let less = next_line_buffer c e more in
      rw (consume, more) (consume_read c n _ (omega (arith, enough, less)))
  | inr last ↦ rw (consume, last) (next_line_read c e last)
]

-- After each chunk of the input, the entry has settled, or every whole line was read and what is left is
-- an open line of at most 4096 bytes.
pub on_data_read :
    (c : Codec) (chunk : List ℕ) (e : ServiceEntry) → is_read (on_data c chunk e) ≡ true
unfolding on_data
on_data_read c chunk e = elim (Bool-cases (ltb input_limit (e.input_bytes + length chunk))) [
  | inl many ↦ rw many (fail_read _)
  | inr few ↦ rw few (consume_read c _ _ (omega arith))
]
