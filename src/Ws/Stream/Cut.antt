-- ===== src/Ws/Stream/Cut.antt =====
-- A cut through the bytes of a list of frames.
use grpcgi.Base.{ℕ, ◌≤◌, ◌<◌, arith, ◌≡◌, ◌≢◌, refl, sym, ap, ◌∙◌}
use grpcgi.Base.{
  ltb, Bool-cases, ltb→lt, not_ltb→le, inl, inr, List, [], ◌∷◌, ◌++◌, length, take, drop,
}
use grpcgi.Base.{length-drop, append_assoc, take-append-drop, take-append_le}
use grpcgi.Base.{take-append_self, drop-append_self, drop-append_le, All, nothing}
use grpcgi.Base.Machine.{Bytes}
use grpcgi.Ws.FrameCodec.{parse_ws_frame}
use grpcgi.Ws.FrameCodec.Rfc6455.{Frame, frame_bytes}
use grpcgi.Ws.FrameCodec.Encode.{parse_ws_frame_incomplete}
use grpcgi.Ws.Stream.Frames.{IsOpenFrame, stream_bytes}

-- Where a stream of frames is cut in two: whole frames, then a piece of one.
pub record Cut (fs : List Frame) (x y : Bytes) : Type 0 where
  pub before : List Frame
  pub behind : List Frame
  pub piece : Bytes
  pub splits : fs ≡ before ++ behind
  pub front : x ≡ stream_bytes before ++ piece
  pub back : piece ++ y ≡ stream_bytes behind
  pub incomplete : parse_ws_frame piece ≡ nothing

pub parse_nothing : parse_ws_frame [] ≡ nothing
unfolding parse_ws_frame
parse_nothing = refl

-- The cut falls into the first frame.
Cut-inside :
    (f : Frame) (fs : List Frame) (x y : Bytes)
    → All IsOpenFrame (f ∷ fs)
    → x ++ y ≡ stream_bytes (f ∷ fs)
    → length x < length (frame_bytes f)
    → Cut (f ∷ fs) x y
Cut-inside f fs x y valid e short = record {
  before = [];
  behind = f ∷ fs;
  piece = x;
  splits = refl;
  front = refl;
  back = e;
  incomplete = parse_ws_frame_incomplete f x rest valid.0.0 whole some_rest;
}
  where
    rest : Bytes
    rest = drop (length x) (frame_bytes f)

    same_front : x ≡ take (length x) (frame_bytes f)
    same_front =
        sym (take-append_self x y)
        ∙ ap (take (length x)) e
        ∙ take-append_le (length x) (frame_bytes f) (stream_bytes fs) (omega arith)

    whole : frame_bytes f ≡ x ++ rest
    whole =
        sym (take-append-drop (length x) (frame_bytes f))
        ∙ ap (λ (l : Bytes). l ++ rest) (sym same_front)

    some_rest : rest ≢ []
    some_rest none_left =
        absurd (omega (arith, ap length none_left, length-drop (length x) (frame_bytes f)))

-- The first frame lies before the cut.
Cut-cons :
    (f : Frame) (fs : List Frame) (x y : Bytes)
    → x ++ y ≡ stream_bytes (f ∷ fs)
    → length (frame_bytes f) ≤ length x
    → (drop (length (frame_bytes f)) x ++ y ≡ stream_bytes fs
        → Cut fs (drop (length (frame_bytes f)) x) y)
    → Cut (f ∷ fs) x y
Cut-cons f fs x y e long cut = record {
  before = f ∷ rest.before;
  behind = rest.behind;
  piece = rest.piece;
  splits = ap (◌∷◌ f) rest.splits;
  front =
      whole
      ∙ ap (λ (l : Bytes). frame_bytes f ++ l) rest.front
      ∙ sym (append_assoc (frame_bytes f) _ _);
  back = rest.back;
  incomplete = rest.incomplete;
}
  where
    n : ℕ
    n = length (frame_bytes f)

    rest : Cut fs (drop n x) y
    rest = cut (
        sym (drop-append_le n x y long)
        ∙ ap (drop n) e
        ∙ drop-append_self (frame_bytes f) (stream_bytes fs))

    same_front : frame_bytes f ≡ take n x
    same_front =
        sym (take-append_self (frame_bytes f) (stream_bytes fs))
        ∙ ap (take n) (sym e)
        ∙ take-append_le n x y long

    whole : x ≡ frame_bytes f ++ drop n x
    whole = sym (take-append-drop n x) ∙ ap (λ (l : Bytes). l ++ drop n x) (sym same_front)

pub Cut-stream_bytes :
    (fs : List Frame) (x y : Bytes) → All IsOpenFrame fs → x ++ y ≡ stream_bytes fs → Cut fs x y
Cut-stream_bytes [] [] y valid e = record {
  before = [];
  behind = [];
  piece = [];
  splits = refl;
  front = refl;
  back = e;
  incomplete = parse_nothing;
}
Cut-stream_bytes [] (b ∷ x) y valid e = absurd (omega (arith, ap length e))
Cut-stream_bytes (f ∷ fs) x y valid e =
    elim (Bool-cases (ltb (length x) (length (frame_bytes f)))) [
      | inl short ↦ Cut-inside f fs x y valid e (ltb→lt (length x) _ short)
      | inr long ↦
          Cut-cons f fs x y e (not_ltb→le (length x) _ long) (Cut-stream_bytes fs _ y valid.1)
    ]
