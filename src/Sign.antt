-- ===== src/Sign.antt =====
-- practica3/sign.c: signs a file and its name with RSA, and checks such signatures.
pub mod Block
pub mod Check
pub mod Files
pub mod Program
