-- ===== src/Config.antt =====
-- The size table of core/include/nexs_common.h: one record of limits for each POOL_ macro.

use base_nexs.Common.{ℕ, suc, ◌+◌, ◌-◌, ◌*◌, ◌/◌, ◌^◌, ◌<◌, ◌≡◌, refl, arith}

-- The macro that the build defines; `standard` stands for a build that defines none of them.
pub data Pool : Type 0 where
  pool_16mb pool_4mb pool_512kb pool_32kb pool_16kb pool_4kb standard : Pool

pub record Limits : Type 0 where
  pub pool_size : ℕ
  pub large_pool_pages : ℕ
  pub min_block : ℕ
  pub max_str_len : ℕ
  pub max_tokens : ℕ
  pub reg_path_max : ℕ
  pub max_arrays : ℕ
  pub name_len : ℕ
  pub max_params : ℕ
  pub max_fn_defs : ℕ

abbrev pub limits : Pool → Limits
limits pool_16mb = record {
  pool_size = 16 * 1024 * 1024;
  large_pool_pages = 4096;
  min_block = 128;
  max_str_len = 8192;
  max_tokens = 16384;
  reg_path_max = 512;
  max_arrays = 1024;
  name_len = 64;
  max_params = 16;
  max_fn_defs = 1024;
}
limits pool_4mb = record {
  pool_size = 4 * 1024 * 1024;
  large_pool_pages = 1024;
  min_block = 32;
  max_str_len = 4096;
  max_tokens = 8192;
  reg_path_max = 512;
  max_arrays = 512;
  name_len = 64;
  max_params = 16;
  max_fn_defs = 512;
}
limits pool_512kb = record {
  pool_size = 512 * 1024;
  large_pool_pages = 128;
  min_block = 16;
  max_str_len = 2048;
  max_tokens = 1024;
  reg_path_max = 256;
  max_arrays = 128;
  name_len = 64;
  max_params = 16;
  max_fn_defs = 256;
}
limits pool_32kb = record {
  pool_size = 32 * 1024;
  large_pool_pages = 8;
  min_block = 16;
  max_str_len = 512;
  max_tokens = 128;
  reg_path_max = 128;
  max_arrays = 16;
  name_len = 32;
  max_params = 8;
  max_fn_defs = 64;
}
limits pool_16kb = record {
  pool_size = 16 * 1024;
  large_pool_pages = 4;
  min_block = 16;
  max_str_len = 256;
  max_tokens = 64;
  reg_path_max = 64;
  max_arrays = 8;
  name_len = 24;
  max_params = 4;
  max_fn_defs = 32;
}
limits pool_4kb = record {
  pool_size = 4 * 1024;
  large_pool_pages = 1;
  min_block = 16;
  max_str_len = 128;
  max_tokens = 32;
  reg_path_max = 32;
  max_arrays = 4;
  name_len = 16;
  max_params = 4;
  max_fn_defs = 16;
}
limits standard = record {
  pool_size = 16 * 1024 * 1024;
  large_pool_pages = 4096;
  min_block = 128;
  max_str_len = 8192;
  max_tokens = 16384;
  reg_path_max = 512;
  max_arrays = 1024;
  name_len = 64;
  max_params = 16;
  max_fn_defs = 1024;
}

abbrev pub num_leaves : Limits → ℕ
num_leaves l = l.pool_size / l.min_block

abbrev pub tree_nodes : Limits → ℕ
tree_nodes l = 2 * num_leaves l - 1

-- How often the pool halves before its parts are the least blocks.
abbrev pub levels : Pool → ℕ
levels pool_16mb = 17
levels pool_4mb = 17
levels pool_512kb = 15
levels pool_32kb = 11
levels pool_16kb = 10
levels pool_4kb = 8
levels standard = 17

-- The buddy tree of a pool that is a whole number of halvings above its least block.
pub record IsBuddySized (l : Limits) (n : ℕ) : Type 0 where
  pub pool : l.pool_size ≡ l.min_block * 2 ^ n
  pub nodes : tree_nodes l + 1 ≡ 2 ^ suc n
  pub least : 0 < l.min_block
  pub small : l.pool_size < 2 ^ 63
  pub few : n < 64

pub levels_lem : (p : Pool) → IsBuddySized (limits p) (levels p)
levels_lem pool_16mb = record {
  pool = refl;
  nodes = refl;
  least = omega arith;
  small = omega arith;
  few = omega arith;
}
levels_lem _ = record {
  pool = refl;
  nodes = refl;
  least = omega arith;
  small = omega arith;
  few = omega arith;
}
