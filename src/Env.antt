-- ===== src/Env.antt =====
-- What a lookup runs on: floats, the random module and the stored data, over floats F and a random
-- generator G.
use mlab_ns.Runtime.{FloatOps, Chance, ChanceLaws}
use mlab_ns.Model.{SliverTool, Backend, BackendLaws}

pub record Env (F G : Type 0) : Type 0 where
  pub fl : FloatOps F
  pub rng : Chance G F (SliverTool F)
  pub backend : Backend F

-- What the code relies on.
pub record EnvLaws {F G : Type 0} (env : Env F G) : Type 0 where
  pub chance : ChanceLaws env.fl env.rng
  pub stored : BackendLaws env.backend
