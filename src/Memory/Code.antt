-- ===== src/Memory/Code.antt =====
-- The table of the instructions in opcode/opcode.c, as far as their operands go, and the macro
-- adjust_code of include/system.h, which goes over the operands of one.
use mlvm.Base.{ℕ, Option, List, [], ◌∷◌, get_elem?}

-- InstType
pub data InstType : Type 0 where
  i_stationary i_worker i_messenger i_o i_n i_e i_c i_f i_b i_i i_p i_r i_2n i_3n i_4n i_5n :
      InstType
  i_6n i_7n i_8n i_ne i_nc i_nf i_ni i_nr i_2ne i_2nf i_nfe i_2nfe i_3ne i_3nfe i_4e i_n4e :
      InstType
  i_htab : InstType

-- The column `type` of `opcode_tab`, a row for each opcode.
pub opcode_types : List InstType
opcode_types =
    i_o ∷ i_2n ∷ i_2n ∷ i_e ∷ i_e ∷ i_e ∷ i_o ∷ i_o ∷ i_ne ∷ i_ne ∷ i_ne ∷ i_o ∷ i_o ∷ i_n ∷ i_n
    ∷ i_b ∷ i_o ∷ i_o ∷ i_o ∷ i_o ∷ i_n ∷ i_2n ∷ i_3n ∷ i_4n ∷ i_n ∷ i_n ∷ i_2n ∷ i_3n ∷ i_4n ∷ i_5n
    ∷ i_6n ∷ i_7n ∷ i_8n ∷ i_c ∷ i_i ∷ i_n ∷ i_n ∷ i_n ∷ i_n ∷ i_n ∷ i_o ∷ i_nc ∷ i_c ∷ i_ni ∷ i_i
    ∷ i_2n ∷ i_n ∷ i_nr ∷ i_r ∷ i_2n ∷ i_n ∷ i_nf ∷ i_f ∷ i_2n ∷ i_n ∷ i_n ∷ i_n ∷ i_e ∷ i_4e ∷ i_nc
    ∷ i_c ∷ i_ni ∷ i_i ∷ i_2n ∷ i_n ∷ i_nr ∷ i_r ∷ i_3ne ∷ i_2ne ∷ i_2n ∷ i_n ∷ i_3nfe ∷ i_2nfe
    ∷ i_3n ∷ i_3n ∷ i_3n ∷ i_3n ∷ i_2n ∷ i_3n ∷ i_2n ∷ i_2n ∷ i_2n ∷ i_3n ∷ i_3n ∷ i_3n ∷ i_3n
    ∷ i_3n ∷ i_ne ∷ i_ne ∷ i_ne ∷ i_ne ∷ i_ne ∷ i_ne ∷ i_ne ∷ i_ne ∷ i_ne ∷ i_ne ∷ i_ne ∷ i_ne ∷ i_e
    ∷ i_ne ∷ i_e ∷ i_n4e ∷ i_4e ∷ i_ne ∷ i_e ∷ i_2ne ∷ i_2ne ∷ i_2ne ∷ i_2ne ∷ i_2ne ∷ i_2ne ∷ i_3n
    ∷ i_2ne ∷ i_2ne ∷ i_2ne ∷ i_2ne ∷ i_2ne ∷ i_2ne ∷ i_3n ∷ i_ne ∷ i_ne ∷ i_ne ∷ i_ne ∷ i_ne ∷ i_ne
    ∷ i_2ne ∷ i_2ne ∷ i_3n ∷ i_n ∷ i_n ∷ i_n ∷ i_stationary ∷ i_worker ∷ i_messenger ∷ i_p ∷ i_htab
    ∷ []

-- `opcode_tab[*tp2].type`, none beyond the table.
unfoldable pub type_of : ℕ → Option InstType
unfolding opcode_types
type_of opcode = get_elem? opcode_types opcode

-- IDIRECT, IADJUST and IHASH
pub data CodeStep : Type 0 where
  direct adjust hash : CodeStep

-- The steps of `adjust_code` at an instruction of the type.
unfoldable pub adjust_code : InstType → List CodeStep
adjust_code i_stationary = direct ∷ adjust ∷ []
adjust_code i_worker = direct ∷ adjust ∷ []
adjust_code i_messenger = direct ∷ adjust ∷ []
adjust_code i_o = direct ∷ []
adjust_code i_n = direct ∷ direct ∷ []
adjust_code i_e = direct ∷ adjust ∷ []
adjust_code i_c = direct ∷ direct ∷ []
adjust_code i_f = direct ∷ direct ∷ []
adjust_code i_b = direct ∷ direct ∷ []
adjust_code i_i = direct ∷ direct ∷ []
adjust_code i_p = direct ∷ direct ∷ []
adjust_code i_r = direct ∷ direct ∷ direct ∷ []
adjust_code i_2n = direct ∷ direct ∷ direct ∷ []
adjust_code i_3n = direct ∷ direct ∷ direct ∷ direct ∷ []
adjust_code i_4n = direct ∷ direct ∷ direct ∷ direct ∷ direct ∷ []
adjust_code i_5n = direct ∷ direct ∷ direct ∷ direct ∷ direct ∷ direct ∷ []
adjust_code i_6n = direct ∷ direct ∷ direct ∷ direct ∷ direct ∷ direct ∷ direct ∷ []
adjust_code i_7n = direct ∷ direct ∷ direct ∷ direct ∷ direct ∷ direct ∷ direct ∷ direct ∷ []
adjust_code i_8n =
    direct ∷ direct ∷ direct ∷ direct ∷ direct ∷ direct ∷ direct ∷ direct ∷ direct ∷ []
adjust_code i_ne = direct ∷ direct ∷ adjust ∷ []
adjust_code i_nc = direct ∷ direct ∷ direct ∷ []
adjust_code i_nf = direct ∷ direct ∷ direct ∷ []
adjust_code i_ni = direct ∷ direct ∷ direct ∷ []
adjust_code i_nr = direct ∷ direct ∷ direct ∷ direct ∷ []
adjust_code i_2ne = direct ∷ direct ∷ direct ∷ adjust ∷ []
adjust_code i_2nf = direct ∷ direct ∷ direct ∷ direct ∷ []
adjust_code i_nfe = direct ∷ direct ∷ direct ∷ adjust ∷ []
adjust_code i_2nfe = direct ∷ direct ∷ direct ∷ direct ∷ adjust ∷ []
adjust_code i_3ne = direct ∷ direct ∷ direct ∷ direct ∷ adjust ∷ []
adjust_code i_3nfe = direct ∷ direct ∷ direct ∷ direct ∷ direct ∷ adjust ∷ []
adjust_code i_4e = direct ∷ adjust ∷ adjust ∷ adjust ∷ adjust ∷ []
adjust_code i_n4e = direct ∷ direct ∷ adjust ∷ adjust ∷ adjust ∷ adjust ∷ []
adjust_code i_htab = hash ∷ []
