-- ===== src/FeWebSocket/Scheduled.antt =====
-- What the effects of the socket of server/feWebClient/feWebSocket.ts say about reconnections.
use thelounge.Common.{ℕ, ◌+◌, ◌≡◌, refl, ap, List, [], ◌∷◌, ◌++◌, arith}
use thelounge.FeWebSocket.Sending.{
  Effect, sent, create_socket, close_socket, resolved, rejected, notify_disconnect,
  schedule_reconnect, call_handler, emitted,
}

-- The number of reconnections that are scheduled.
abbrev pub schedules : List Effect → ℕ
schedules [] = 0
schedules (schedule_reconnect _ ∷ es) = schedules es + 1
schedules (_ ∷ es) = schedules es

pub schedules-append : (es fs : List Effect) → schedules (es ++ fs) ≡ schedules es + schedules fs
schedules-append [] fs = omega arith
schedules-append (schedule_reconnect _ ∷ es) fs = omega (arith, schedules-append es fs)
schedules-append (sent _ _ ∷ es) fs = schedules-append es fs
schedules-append (create_socket _ ∷ es) fs = schedules-append es fs
schedules-append (close_socket ∷ es) fs = schedules-append es fs
schedules-append (resolved _ ∷ es) fs = schedules-append es fs
schedules-append (rejected _ ∷ es) fs = schedules-append es fs
schedules-append (notify_disconnect _ ∷ es) fs = schedules-append es fs
schedules-append (call_handler _ _ ∷ es) fs = schedules-append es fs
schedules-append (emitted _ _ ∷ es) fs = schedules-append es fs

-- The delays after which reconnections are scheduled.
abbrev pub delays : List Effect → List ℕ
delays [] = []
delays (schedule_reconnect delay ∷ es) = delay ∷ delays es
delays (_ ∷ es) = delays es

pub delays-append : (es fs : List Effect) → delays (es ++ fs) ≡ delays es ++ delays fs
delays-append [] fs = refl
delays-append (schedule_reconnect delay ∷ es) fs = ap (◌∷◌ delay) (delays-append es fs)
delays-append (sent _ _ ∷ es) fs = delays-append es fs
delays-append (create_socket _ ∷ es) fs = delays-append es fs
delays-append (close_socket ∷ es) fs = delays-append es fs
delays-append (resolved _ ∷ es) fs = delays-append es fs
delays-append (rejected _ ∷ es) fs = delays-append es fs
delays-append (notify_disconnect _ ∷ es) fs = delays-append es fs
delays-append (call_handler _ _ ∷ es) fs = delays-append es fs
delays-append (emitted _ _ ∷ es) fs = delays-append es fs

pub delays-schedules : (es : List Effect) → schedules es ≡ 0 → delays es ≡ []
delays-schedules [] h = refl
delays-schedules (schedule_reconnect delay ∷ es) h = absurd (omega (arith, h))
delays-schedules (sent _ _ ∷ es) h = delays-schedules es h
delays-schedules (create_socket _ ∷ es) h = delays-schedules es h
delays-schedules (close_socket ∷ es) h = delays-schedules es h
delays-schedules (resolved _ ∷ es) h = delays-schedules es h
delays-schedules (rejected _ ∷ es) h = delays-schedules es h
delays-schedules (notify_disconnect _ ∷ es) h = delays-schedules es h
delays-schedules (call_handler _ _ ∷ es) h = delays-schedules es h
delays-schedules (emitted _ _ ∷ es) h = delays-schedules es h
