-- ===== src/Labs.antt =====
-- The trial programs of practica2/ejemplo_sha1_y_pasar_a_hexadecimal and practica3/pruebas.
pub mod Hola
pub mod Digest512
pub mod Draft
pub mod Final
