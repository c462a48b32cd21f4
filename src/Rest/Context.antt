-- ===== src/Rest/Context.antt =====
-- `RequestContext` of include/restserver.h, which is to carry a response to where it is sent. No part of
-- the program makes one yet.
use nexran.Base.{
  ℕ, ◌≤◌, Bool, true, false, List, [], ◌∷◌, ◌++◌, if◌then◌else◌, length, length-append, ◌≡◌, refl,
  arith,
}
use nexran.Resource.Writer.{Token}

-- `responses` is what went out through the response writer, with its code.
pub record RequestContext : Type 0 where
  pub code : ℕ
  pub async : Bool
  pub sent : Bool
  pub writer : List Token
  pub responses : List (ℕ × List Token)

unfoldable pub new_context : RequestContext
new_context = record { code = 200; async = false; sent = false; writer = []; responses = [] }

unfoldable pub make_async : RequestContext → RequestContext
make_async ctx = record ctx { async = true }

unfoldable pub set_code : ℕ → RequestContext → RequestContext
set_code code ctx = record ctx { code = code }

-- A use of `get_writer`.
unfoldable pub write : List Token → RequestContext → RequestContext
write tokens ctx = record ctx { writer = ctx.writer ++ tokens }

unfoldable pub send : RequestContext → RequestContext
send ctx =
    if ctx.sent
    then ctx
    else record ctx { sent = true; responses = ctx.responses ++ (ctx.code, ctx.writer) ∷ [] }

pub data Operation : Type 0 where
  makes_async sends : Operation
  sets_code : ℕ → Operation
  writes : List Token → Operation

abbrev pub apply : Operation → RequestContext → RequestContext
unfolding make_async set_code write send
apply makes_async ctx = make_async ctx
apply sends ctx = send ctx
apply (sets_code code) ctx = set_code code ctx
apply (writes tokens) ctx = write tokens ctx

abbrev pub apply_all : List Operation → RequestContext → RequestContext
apply_all [] ctx = ctx
apply_all (o ∷ os) ctx = apply_all os (apply o ctx)

-- One response is out if the context is marked as sent, and none otherwise.
abbrev pub IsAccounted : RequestContext → Type 0
IsAccounted ctx = length ctx.responses ≡ (if ctx.sent then 1 else 0)

apply-IsAccounted :
    (o : Operation) (ctx : RequestContext) → IsAccounted ctx → IsAccounted (apply o ctx)
unfolding make_async set_code write send
apply-IsAccounted makes_async ctx a = a
apply-IsAccounted sends ctx a =
    ground (arith, length-append ctx.responses ((ctx.code, ctx.writer) ∷ []))
apply-IsAccounted (sets_code code) ctx a = a
apply-IsAccounted (writes tokens) ctx a = a

apply_all-IsAccounted :
    (os : List Operation) (ctx : RequestContext) → IsAccounted ctx → IsAccounted (apply_all os ctx)
apply_all-IsAccounted [] ctx a = a
apply_all-IsAccounted (o ∷ os) ctx a =
    apply_all-IsAccounted os (apply o ctx) (apply-IsAccounted o ctx a)

-- However a context is used, at most one response goes out.
pub apply_all-once : (os : List Operation) → length (apply_all os new_context).responses ≤ 1
unfolding new_context
apply_all-once os = ground (arith, apply_all-IsAccounted os new_context refl)
